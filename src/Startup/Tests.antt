-- ===== src/Startup/Tests.antt =====
-- Runs of initialisation, and the theorems about it at concrete inputs.
use bifrost_module.Base.{true, false, none, [], ◌==◌, ◌||◌, ok, err, ◌≡◌, refl, eio}
use bifrost_module.Startup.{IsClean}
use bifrost_module.Startup.AnimalInit
use bifrost_module.Startup.BifrostInit
use bifrost_module.Startup.AnimalInit.{animal_init, animal_exit, animal_init-Clean}
use bifrost_module.Startup.BifrostInit.{bifrost_init, platform_device}

-- Three adapters, of which the middle one is not there, and a device that cannot be added.
abbrev half_there : AnimalInit.Answers
half_there = record {
  adapters = 3;
  simulator = false;
  sim_adap_nr = none;
  memory = true;
  array = true;
  found = λ i. i == 0 || i == 2;
  add_driver = ok 0;
  register_region = ok 0;
  add_cdev = err eio;
}

run : (animal_init half_there).1 ≡ err 1
unfolding animal_init
run = refl

animal_init-Clean_example : IsClean [] (animal_exit half_there) (animal_init half_there)
animal_init-Clean_example = animal_init-Clean half_there

-- A memory bus on which all is there.
abbrev all_there : BifrostInit.Answers
all_there = record {
  membus = true;
  memory = true;
  pool = true;
  queue = true;
  ret = err 1;
  mapped = λ n. true;
  platform = true;
  rc = err 1;
  valid = λ n. true;
  request_irq = λ n. ok 0;
  register_driver = ok 0;
  alloc_region = ok 0;
  add_cdev = ok 0;
}

bifrost_run : (bifrost_init all_there).1 ≡ ok 0
unfolding bifrost_init
bifrost_run = refl
