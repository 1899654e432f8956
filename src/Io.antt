-- ===== src/Io.antt =====
-- The system-call wrappers of src/utils.c: `nwrite`, `connect_remote`, `open_listen_fd` and
-- `read_file`. What a system call returns is an argument.
pub mod Written
use Prim.Native.Nat.{min}
use xwp_server.Base.{
  ℕ, suc, ◌+◌, ◌-◌, Bool, true, false, List, [], ◌∷◌, ◌++◌, length, take, drop, Option, none, some,
  ltb, if◌then◌else◌,
}
use xwp_server.CLib.{Bytes}

-- One result of `send`: none with EINTR or EAGAIN, none with another error, or a count. It takes one
-- byte at least and no more than it is given, so `sent k` says that it takes `k + 1`, or all there are.
pub data Send : Type 0 where
  again refused : Send
  sent : ℕ → Send

-- The result 1 or 0, or not yet.
pub data Outcome : Type 0 where
  wrote : Bool → Outcome
  blocked : Outcome

-- `while(cur < len)`; `out` is what the socket has taken.
unfoldable pub nwrite_loop : Bytes → List Send → ℕ → Bytes → Outcome × Bytes
nwrite_loop buf [] cur out = (if ltb cur (length buf) then blocked else wrote true, out)
nwrite_loop buf (again ∷ sends) cur out =
    let rest = nwrite_loop buf sends cur out in
    if ltb cur (length buf) then rest else (wrote true, out)
nwrite_loop buf (refused ∷ sends) cur out =
    (if ltb cur (length buf) then wrote false else wrote true, out)
nwrite_loop buf (sent k ∷ sends) cur out =
    let written = min (suc k) (length buf - cur) in
    let rest = nwrite_loop buf sends (cur + written) (out ++ take written (drop cur buf)) in
    if ltb cur (length buf) then rest else (wrote true, out)

unfoldable pub nwrite : Bytes → List Send → Outcome × Bytes
unfolding nwrite_loop
nwrite buf sends = nwrite_loop buf sends 0 []

-- What happens to sockets, by their numbers.
pub data Call : Type 0 where
  opened closed : ℕ → Call

-- `connect_remote`: the results of `socket` and `connect`; the result, and the calls on the socket.
unfoldable pub connect_remote : Option ℕ → Bool → Option ℕ × List Call
connect_remote none connected = (none, [])
connect_remote (some fd) true = (some fd, opened fd ∷ [])
connect_remote (some fd) false = (none, opened fd ∷ closed fd ∷ [])

-- `open_listen_fd`, with the results of `socket`, `setsockopt`, `bind` and `listen`.
unfoldable pub open_listen_fd : Option ℕ → Bool → Bool → Bool → Option ℕ × List Call
open_listen_fd none set bound listening = (none, [])
open_listen_fd (some fd) false bound listening = (none, opened fd ∷ [])
open_listen_fd (some fd) true false listening = (none, opened fd ∷ closed fd ∷ [])
open_listen_fd (some fd) true true false = (none, opened fd ∷ closed fd ∷ [])
open_listen_fd (some fd) true true true = (some fd, opened fd ∷ [])

-- `read_file`, with the file's bytes if `fopen` succeeds, and the result of `stat`. `malloc` and
-- `fread` are taken to succeed.
unfoldable pub read_file : Option Bytes → Bool → Option Bytes
read_file none known = none
read_file (some bytes) true = some bytes
read_file (some bytes) false = none
