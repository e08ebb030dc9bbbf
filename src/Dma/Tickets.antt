-- ===== src/Dma/Tickets.antt =====
-- Tickets of DMA requests, `get_ticket` and `alloc_dma_req` of bifrost/bifrost_dma.c.
use bifrost_module.Base.{
  ℕ, ◌+◌, ◌%◌, ◌^◌, ◌<◌, ◌≡◌, ◌≢◌, Bool, true, false, some, List, [], ◌∷◌, arith, bit_and_mask,
}
use bifrost_module.Dma.{Req, get_ticket, alloc_dma_req}

get_ticket_lem : (count : ℕ) → (get_ticket count).1 ≡ (count + 1) % 2 ^ 31
unfolding get_ticket
get_ticket_lem count = omega (arith, bit_and_mask 31 ((count + 1) % 2 ^ 32))

-- An allocation: whether there is memory, and the cookie.
abbrev pub Attempt : Type 0
Attempt = Bool × ℕ

-- The counter that allocations, one after the other, leave.
abbrev pub counted : List Attempt → ℕ → ℕ
counted [] count = count
counted ((memory, cookie) ∷ ps) count = counted ps (alloc_dma_req memory count cookie).0

-- How many of them there is memory for.
abbrev pub allocated : List Attempt → ℕ
allocated [] = 0
allocated ((true, cookie) ∷ ps) = 1 + allocated ps
allocated ((false, cookie) ∷ ps) = allocated ps

counted-allocated :
    (ps : List Attempt) (count : ℕ)
    → count < 2 ^ 32
    → counted ps count ≡ (count + allocated ps) % 2 ^ 32
unfolding alloc_dma_req get_ticket
counted-allocated [] count lt = omega (arith, lt)
counted-allocated ((true, cookie) ∷ ps) count lt =
    omega (arith, counted-allocated ps ((count + 1) % 2 ^ 32) (omega arith))
counted-allocated ((false, cookie) ∷ ps) count lt = counted-allocated ps count lt

count-alloc : (count cookie : ℕ) → (alloc_dma_req true count cookie).0 ≡ (count + 1) % 2 ^ 32
unfolding alloc_dma_req get_ticket
count-alloc count cookie = omega arith

-- A ticket is below 2^31, so as an `int` it is not an error; and when the counter that its allocation
-- left goes through any further allocations, of which fewer than 2^31 - 1 get memory, the request
-- that is allocated after them has a different ticket.
pub alloc_dma_req_distinct :
    (count cookie cookie' : ℕ) (ps : List Attempt) {r r' : Req}
    → allocated ps + 1 < 2 ^ 31
    → (alloc_dma_req true count cookie).1 ≡ some r
    → (alloc_dma_req true (counted ps (alloc_dma_req true count cookie).0) cookie').1 ≡ some r'
    → (r.ticket < 2 ^ 31) × (r.ticket ≢ r'.ticket)
unfolding alloc_dma_req
alloc_dma_req_distinct count cookie cookie' ps {r} {r'} few e e' =
    let left : ℕ = (alloc_dma_req true count cookie).0 in
    let started : left ≡ (count + 1) % 2 ^ 32 = count-alloc count cookie in
    let first : r.ticket ≡ (count + 1) % 2 ^ 31 = ground (arith, get_ticket_lem count) in
    let later : r'.ticket ≡ (counted ps left + 1) % 2 ^ 31 =
      ground (arith, get_ticket_lem (counted ps left)) in
    let between : counted ps left ≡ (left + allocated ps) % 2 ^ 32 =
      counted-allocated ps left (omega (arith, started)) in
    (omega arith, λ same. omega (arith, started, first, later, between, few))
