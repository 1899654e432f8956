-- ===== src/Tests/System.antt =====
-- Writing to a socket, the static files, and the master process, on concrete inputs.
use xwp_server.Base.{
  ℕ, ◌≡◌, ◌≢◌, refl, true, false, List, [], ◌∷◌, Option, none, some, get_elem?, pos, ◌==◌, arith,
}
use xwp_server.CLib.{Bytes, codes}
use xwp_server.Io.{Send, again, sent, refused, nwrite, wrote}
use xwp_server.Master.Reaped.{no_worker_forgotten}
use xwp_server.Master.Options.Chosen.{IsName, Chosen, conf_files-Chosen}
use xwp_server.Master.Options.{opt_c, conf_files}
use xwp_server.Master.{
  Master, start, Reach, started, then, ends, wakes, forks, round, alive, zombie, sleeping,
}
use xwp_server.Request.{get}
use xwp_server.Static.Answers.{AnswersTo, module_default_handle_request-AnswersTo}
use xwp_server.Static.{Stat, Answer, module_default_handle_request}

abbrev three_sends : List Send
three_sends = sent 0 ∷ again ∷ sent 5 ∷ sent 0 ∷ []

nwrite-refused : nwrite (codes "abc") (sent 0 ∷ refused ∷ []) ≡ (wrote false, codes "a")
unfolding nwrite
nwrite-refused = refl

-- There is one file.
abbrev stat : Bytes → Option Stat
stat path = some (record { is_dir = false; is_reg = true; user_reads = true; size = 5 })

abbrev open_file : Bytes → Option ℕ
open_file path = some 4

abbrev unanswered : Answer
unanswered = record { status = 0; content_fd = none; content_len = pos 0; headers_out = [] }

abbrev answered : Answer
answered =
    module_default_handle_request stat open_file (codes "/w") (codes "index.html") get (codes "/")
      unanswered

module_default_handle_request-AnswersTo_example :
    AnswersTo stat open_file (codes "/w") (codes "index.html") (codes "/") unanswered get answered
module_default_handle_request-AnswersTo_example =
    module_default_handle_request-AnswersTo stat open_file (codes "/w") (codes "index.html") get
      (codes "/") unanswered

-- The worker ends and is forked again.
abbrev replaced : Master
replaced = record {
  exit_flag = false;
  child_exited = false;
  workers = alive ∷ [];
  place = sleeping;
}

replaced-Reach : Reach replaced
unfolding start
replaced-Reach =
    then
      (then (then (then (started true) (ends 0 refl)) (wakes refl refl)) (forks 0 refl refl refl))
      (round 1 refl refl)

no_worker_forgotten_example : get_elem? replaced.workers 0 ≢ some zombie
no_worker_forgotten_example = no_worker_forgotten replaced 0 replaced-Reach refl refl

nonzero : (c : ℕ) → (c == 0) ≡ false → c ≢ 0
nonzero c e = ground arith

x-IsName : IsName (codes "x")
x-IsName = ((nonzero b'x' refl, tt), omega arith)

l-IsName : IsName (codes "l")
l-IsName = ((nonzero b'l' refl, tt), omega arith)

-- Of two options `-c` the second counts; the log's file is the default.
conf_files-Chosen_example :
    Chosen
      (codes "x")
      (codes "l")
      (conf_files (codes "x") (codes "l") (opt_c (codes "l") ∷ opt_c (codes "x") ∷ []))
conf_files-Chosen_example =
    conf_files-Chosen (codes "x") (codes "l") (opt_c (codes "l") ∷ opt_c (codes "x") ∷ []) x-IsName
      l-IsName (l-IsName, (x-IsName, tt))
