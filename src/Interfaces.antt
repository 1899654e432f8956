-- ===== src/Interfaces.antt =====
-- src/module.h and src/upstream.h: the calls of a module's and of an upstream's functions, which may
-- be NULL, and the end of `connection_process_request` in src/connection.c, which makes them.
use xwp_server.Base.{◌≡◌, refl, Option, none, some, ◌==◌, if◌then◌else◌, ℤ, pos, negsuc}
use xwp_server.Connection.Send.{BodyOut, no_body}
use xwp_server.Request.{Body, Request}

-- What a handler and an upstream change: the request, and the body of the response.
abbrev pub Answered : Type 0
Answered = Request × BodyOut

-- `upstream_t`
pub record HttpUpstream : Type 0 where
  pub process : Option (Answered → Answered)
  pub abort : Option (Answered → Answered)

-- `module_t`: the result of its `process`, and the upstream that it leaves in the request.
pub record HttpModule : Type 0 where
  pub process : Option (Request → Body → ℤ × Option HttpUpstream × Answered)

-- `HTTP_MODULE_PROCESS_DONE` where there is no function
unfoldable pub module_process : HttpModule → Request → Body → ℤ × Option HttpUpstream × Answered
module_process m r body = elim m.process [ none ↦ (pos 1, none, (r, no_body)) | some f ↦ f r body ]

unfoldable pub upstream_process : HttpUpstream → Answered → Answered
upstream_process u (r, body) = elim u.process [
  | none ↦ (record r { status = 502 }, body)
  | some f ↦ f (r, body)
]

unfoldable pub upstream_abort : HttpUpstream → Answered → Answered
upstream_abort u a = elim u.abort [ none ↦ a | some f ↦ f a ]

-- How the dispatch ends: with an answer, or an `assert` that fails.
pub data Dispatched : Type 0 where
  answered : Answered → Dispatched
  aborted : Dispatched

-- `upstream_process(thiz->r->upstream)`, with its `assert`
unfoldable pub after_upstream : Option HttpUpstream → Answered → Dispatched
unfolding upstream_process
after_upstream none a = aborted
after_upstream (some u) a = answered (upstream_process u a)

-- The tests of the result, in order.
unfoldable pub after_process : ℤ × Option HttpUpstream × Answered → Dispatched
unfolding after_upstream
after_process (pos n, upstream, a) = if n == 1 then answered a else aborted
after_process (negsuc n, upstream, a) = if n == 0 then after_upstream upstream a else aborted

unfoldable pub dispatch : HttpModule → Request → Body → Dispatched
unfolding module_process after_process
dispatch m r body = after_process (module_process m r body)

-- A module whose function, where it has one, returns HTTP_MODULE_PROCESS_DONE, or
-- HTTP_MODULE_PROCESS_UPSTREAM with an upstream in the request.
abbrev Keeps : ℤ × Option HttpUpstream × Answered → Type 0
Keeps (pos n, upstream, a) = n ≡ 1
Keeps (negsuc n, none, a) = ⊥
Keeps (negsuc n, some u, a) = n ≡ 0

-- What such a result leads to.
abbrev pub handled_by : ℤ × Option HttpUpstream × Answered → Answered
handled_by (pos n, upstream, a) = a
handled_by (negsuc n, none, a) = a
handled_by (negsuc n, some u, a) = upstream_process u a

-- With such a module no `assert` fails, and the dispatch gives an answer: the function that stands for
-- it in a turn of `connection_run`.
pub after_process-answered :
    (x : ℤ × Option HttpUpstream × Answered) → Keeps x → after_process x ≡ answered (handled_by x)
unfolding after_process after_upstream
after_process-answered (pos n, upstream, a) h = rw h refl
after_process-answered (negsuc n, none, a) h = absurd h
after_process-answered (negsuc n, some u, a) h = rw h refl
