-- ===== src/Master/Options.antt =====
-- The options of the command line in `main` of src/main.c, and `worker_main`. What `getopt` returns is
-- an argument.
pub mod Chosen
use xwp_server.Base.{
  ℕ, Bool, true, false, List, [], ◌∷◌, ◌++◌, Option, none, some, ◌==◌, if◌then◌else◌, take,
  replicate,
}
use xwp_server.CLib.{Bytes}

-- One result of `getopt(argc, argv, "c:l:")`, with `optarg`.
pub data Opt : Type 0 where
  opt_c opt_l : Bytes → Opt
  opt_other : Opt

abbrev pub max_conf_len : ℕ
max_conf_len = 512

-- What `strncpy(buffer, text, MAX_CONF_LEN)` leaves in the buffer: the text up to its NUL or up to the
-- buffer's end, and zeros behind it.
unfoldable pub strncpy : Bytes → Bytes
strncpy text = take max_conf_len (text ++ replicate max_conf_len 0)

-- The two buffers `xwp_conf_file` and `log_conf_file`.
pub record Files : Type 0 where
  pub xwp_conf : Bytes
  pub log_conf : Bytes

-- The loop over the options: `none` is the result -1, with the usage.
unfoldable pub option_loop : List Opt → Files → Option Files
unfolding strncpy
option_loop [] files = some files
option_loop (opt_c text ∷ opts) files = option_loop opts (record files { xwp_conf = strncpy text })
option_loop (opt_l text ∷ opts) files = option_loop opts (record files { log_conf = strncpy text })
option_loop (opt_other ∷ opts) files = none

-- `if(file[0] == '\0') strncpy(file, path, MAX_CONF_LEN)`
unfoldable pub or_default : Bytes → Bytes → Bytes
unfolding strncpy
or_default path [] = strncpy path
or_default path (c ∷ file) = if c == 0 then strncpy path else c ∷ file

-- From the zeroed buffers to the names that are used. `xwp_path` and `log_path` stand for
-- XWP_CONF_PATH and LOG_CONF_PATH, which the build may set.
unfoldable pub conf_files : Bytes → Bytes → List Opt → Option Files
unfolding option_loop or_default
conf_files xwp_path log_path opts =
    let empty = replicate max_conf_len 0 in
    elim (option_loop opts (record { xwp_conf = empty; log_conf = empty })) [
      | none ↦ none
      | some files ↦ some (record {
        xwp_conf = or_default xwp_path files.xwp_conf;
        log_conf = or_default log_path files.log_conf;
      })
    ]

-- The string that a function reads in such a buffer, up to its NUL: `none` is a read past its end.
unfoldable pub string_in : Bytes → Option Bytes
string_in [] = none
string_in (c ∷ buffer) =
    let rest = string_in buffer in
    if c == 0 then some [] else elim rest [ none ↦ none | some text ↦ some (c ∷ text) ]

-- `worker_main`: it returns where there is no server, and exits when it finds `s_exit_flag` set. The
-- list holds the flag's values at the tests of its loop.
pub data WorkerEnd : Type 0 where
  returned exited sleeping_on : WorkerEnd

unfoldable pub worker_loop : List Bool → WorkerEnd
worker_loop [] = sleeping_on
worker_loop (true ∷ flags) = exited
worker_loop (false ∷ flags) = worker_loop flags

unfoldable pub worker_main : Bool → List Bool → WorkerEnd
unfolding worker_loop
worker_main created flags = if created then worker_loop flags else returned
