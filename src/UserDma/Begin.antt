-- ===== src/UserDma/Begin.antt =====
-- How a DMA transfer is started, do_dma_start_xfer of bifrost/bifrost_cdev.c.
use bifrost_module.Base.{
  ℕ, ◌%◌, ◌^◌, Bool, true, false, Option, none, some, List, [], ◌++◌, if◌then◌else◌, Result, ok,
  err, enomem, einval, etimedout,
}
use bifrost_module.Stats.{dir_strm_down, dir_strm_up}
use bifrost_module.Dma.{Req, Ctl, Xfer, alloc_dma_req, start_dma_xfer}
use bifrost_module.UserDma.{
  Transfer, Direction, Saved, Answers, Call, Prepared, empty_usr_req, prepare_dma_buffer,
  finish_dma_buffer,
}

-- The request for a transfer, whose addresses are cut to 32 bits; `none` is -EINVAL.
unfoldable pub fill_req : Req → Transfer → Direction → Option Req
fill_req req xfer Direction.down_stream = some (record req {
  src = xfer.system % 2 ^ 32;
  dst = xfer.device;
  len = xfer.size;
  dir = dir_strm_down;
})
fill_req req xfer Direction.up_stream = some (record req {
  src = xfer.device;
  dst = xfer.system % 2 ^ 32;
  len = xfer.size;
  dir = dir_strm_up;
})
fill_req req xfer Direction.other = none

-- What a start leaves: the ticket counter, the buffer, the controller, the calls of `start_xfer`, the
-- resource calls and the return value.
pub record Started : Type 0 where
  pub count : ℕ
  pub saved : Saved
  pub ctl : Ctl
  pub xfers : List Xfer
  pub calls : List Call
  pub xfer : Transfer
  pub result : Result ℕ

-- The return value after the wait.
unfoldable pub end_result : Result ℕ → (ticket : ℕ) → Result ℕ
end_result (ok v) ticket = ok ticket
end_result (err e) ticket = err etimedout

-- The part after the preparation.
unfoldable pub start_prepared : Answers → (user : Bool) → ℕ → Ctl → (now : ℕ) → Prepared → Started
unfolding end_result finish_dma_buffer fill_req
start_prepared k user count ctl now p = elim (fill_req p.req p.xfer p.usr_req.up_down) [
  | none ↦ record {
    count = count;
    saved = p.saved;
    ctl = ctl;
    xfers = [];
    calls = p.calls;
    xfer = p.xfer;
    result = err einval;
  }
  | some req ↦
      let (ctl', xfers) = start_dma_xfer ctl req now in
      let (more, end) = if user then finish_dma_buffer k p.usr_req else ([], ok 0) in
      record {
        count = count;
        saved = p.saved;
        ctl = ctl';
        xfers = xfers;
        calls = p.calls ++ more;
        xfer = p.xfer;
        result = end_result end req.ticket;
      }
]

-- A transfer whose memory needs no preparation.
unfoldable pub unprepared : Saved → Transfer → Req → Direction → Prepared
unfolding empty_usr_req
unprepared s xfer req up_down = record {
  saved = s;
  calls = [];
  xfer = xfer;
  req = req;
  usr_req = empty_usr_req up_down;
  result = ok 0;
}

unfoldable pub start_after :
    Result ℕ → Answers → (user : Bool) → ℕ → Ctl → (now : ℕ) → Prepared → Started
unfolding start_prepared
start_after (err e) k user count ctl now p = record {
  count = count;
  saved = p.saved;
  ctl = ctl;
  xfers = [];
  calls = p.calls;
  xfer = p.xfer;
  result = err enomem;
}
start_after (ok v) k user count ctl now p = start_prepared k user count ctl now p

-- The preparation for a buffer of user space, and none otherwise.
unfoldable pub prepared :
    Answers → (user : Bool) → Saved → Transfer → Req → Direction → (frame : ℕ) → Prepared
unfolding prepare_dma_buffer unprepared
prepared k true s xfer req up_down frame = prepare_dma_buffer k s xfer req up_down frame
prepared k false s xfer req up_down frame = unprepared s xfer req up_down

unfoldable pub start_req : Answers → (user : Bool) → ℕ → Ctl → (now : ℕ) → Prepared → Started
unfolding start_after
start_req k user count ctl now p = start_after p.result k user count ctl now p

-- `user` is the flag BIFROST_DMA_USER_BUFFER, `count` the ticket counter. The controller is the one
-- at the start: what interrupts do to it during the wait are steps of their own.
unfoldable pub do_dma_start_xfer :
    Answers
    → (user : Bool) (frame count now cookie : ℕ) → Ctl
    → Saved
    → Transfer
    → Direction
    → Started
unfolding start_req prepared
do_dma_start_xfer k user frame count now cookie ctl s xfer up_down =
    let (count', r) = alloc_dma_req k.memory count cookie in
    elim r [
      | none ↦ record {
        count = count';
        saved = s;
        ctl = ctl;
        xfers = [];
        calls = [];
        xfer = xfer;
        result = err enomem;
      }
      | some req ↦ start_req k user count' ctl now (prepared k user s xfer req up_down frame)
    ]
