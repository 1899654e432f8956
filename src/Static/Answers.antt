-- ===== src/Static/Answers.antt =====
-- What the handler of static files answers.
use xwp_server.Base.{
  ℕ, ◌%◌, ◌^◌, ◌≡◌, ◌≢◌, ◌⊎◌, refl, ap, true, false, [], ◌∷◌, ◌++◌, Option, none, some, ◌==◌, arith,
  Bool-cases, Option-cases, inl, inr,
}
use xwp_server.CLib.{Bytes, codes, wrap_int}
use xwp_server.Http.ContentType.{http_content_type}
use xwp_server.Http.Headers.{str, http_header_set}
use xwp_server.Memory.Stands.{AllAre}
use xwp_server.Request.{Method, get, post, head, put}
use xwp_server.Static.{
  Stat, Answer, extension, is_slash, file_path, is_forbidden, serve_file,
  module_default_handle_request,
}

-- The name of the file: that of the default page below the root for "/", and the path below the root for
-- any other.
abbrev pub Names : Bytes → Bytes → Bytes → Bytes → Type 0
Names root default_page path file =
    ((path ≡ codes "/") × (file ≡ root ++ default_page))
    ⊎ ((path ≢ codes "/") × (file ≡ root ++ path))

-- What is behind the last dot, where there is one.
abbrev pub Extends : Bytes → Option Bytes → Type 0
Extends path none = AllAre (λ c. c == b'.') false path
Extends path (some ext) =
    (stem : Bytes) × (path ≡ stem ++ b'.' ∷ ext) × AllAre (λ c. c == b'.') false ext

file_path-Names :
    (root default_page path : Bytes)
    → Names root default_page path (file_path root default_page path)
unfolding file_path is_slash
file_path-Names root default_page [] = inr (λ e. cc, refl)
file_path-Names root default_page (c ∷ []) = elim (Bool-cases (c == b'/')) [
  | inl slash ↦ let same : c ≡ b'/' = ground arith in rw slash (inl (ap (λ c. c ∷ []) same, refl))
  | inr other ↦
      let differs : c ≢ b'/' = ground arith in
      rw other (inr (λ e. differs (ap (head_or 0) e), refl))
]
  where
    head_or : ℕ → Bytes → ℕ
    head_or d [] = d
    head_or d (c ∷ s) = c
file_path-Names root default_page (c ∷ (d ∷ path)) = inr (λ e. cc, refl)

extension-Extends : (path : Bytes) → Extends path (extension path)
unfolding extension
extension-Extends [] = tt
extension-Extends (c ∷ path) = go (extension path) refl (extension-Extends path)
  where
    go :
        (o : Option Bytes)
        → extension path ≡ o
        → Extends path o
        → Extends (c ∷ path) (extension (c ∷ path))
    go none e h = elim (Bool-cases (c == b'.')) [
      | inl dot ↦ let same : c ≡ b'.' = ground arith in rw (e, dot) ([], ap (λ c. c ∷ path) same, h)
      | inr other ↦ rw (e, other) (other, h)
    ]
    go (some ext) e h = rw e (c ∷ h.0, ap (λ s. c ∷ s) h.1, h.2)

-- Only the status is set.
abbrev pub Refused : ℕ → Answer → Answer → Type 0
Refused status a a' =
    (a'.status ≡ status)
    × (a'.content_fd ≡ a.content_fd)
    × (a'.content_len ≡ a.content_len)
    × (a'.headers_out ≡ a.headers_out)

-- The body is the file, with its size cut to an `int`, and the type is that of the extension.
abbrev pub Served : Stat → ℕ → Option Bytes → Answer → Answer → Type 0
Served st fd ext a a' =
    (a'.status ≡ 200)
    × (a'.content_fd ≡ some fd)
    × (a'.content_len ≡ wrap_int (st.size % 2 ^ 32))
    × (a'.headers_out
        ≡ http_header_set a.headers_out (codes "Content-Type") (str (http_content_type ext)))

-- A regular file that its owner may read.
abbrev pub Readable : Stat → Type 0
Readable st = (st.is_dir ≡ false) × (st.is_reg ≡ true) × (st.user_reads ≡ true)

-- The answer to GET, by what is known of the file.
pub data Answers (stat : Bytes → Option Stat) (open_file : Bytes → Option ℕ) (file : Bytes)
    (ext : Option Bytes) (a a' : Answer) : Type 0 where
  unknown : stat file ≡ none → Refused 404 a a' → Answers stat open_file file ext a a'
  unreadable :
      (st : Stat)
      → stat file ≡ some st
      → ¬ Readable st
      → Refused 403 a a'
      → Answers stat open_file file ext a a'
  unopened :
      (st : Stat)
      → stat file ≡ some st
      → Readable st
      → open_file file ≡ none
      → Refused 404 a a'
      → Answers stat open_file file ext a a'
  served :
      (st : Stat) (fd : ℕ)
      → stat file ≡ some st
      → Readable st
      → open_file file ≡ some fd
      → Served st fd ext a a'
      → Answers stat open_file file ext a a'

-- A request with another method is refused with 400; one with GET is answered by what is known of the
-- file of its path.
abbrev pub AnswersTo :
    (Bytes → Option Stat)
    → (Bytes → Option ℕ)
    → Bytes
    → Bytes
    → Bytes
    → Answer
    → Method
    → Answer
    → Type 0
AnswersTo stat open_file root default_page path a get a' =
    (file : Bytes) × (ext : Option Bytes) × Names root default_page path file
    × Extends path ext
    × Answers stat open_file file ext a a'
AnswersTo stat open_file root default_page path a _ a' = Refused 400 a a'

closed-unreadable : (st : Stat) → is_forbidden st ≡ true → ¬ Readable st
unfolding is_forbidden
closed-unreadable st e h = ground arith

free-Readable : (st : Stat) → is_forbidden st ≡ false → Readable st
unfolding is_forbidden
free-Readable st e = ground arith

module _ (stat : Bytes → Option Stat) (open_file : Bytes → Option ℕ)
    (root default_page : Bytes) where
  answer_get :
      (path : Bytes) (a : Answer)
      → Answers stat open_file
          (file_path root default_page path)
          (extension path)
          a
          (module_default_handle_request stat open_file root default_page get path a)
  unfolding module_default_handle_request
  answer_get path a =
      let file = file_path root default_page path in
      elim (Option-cases (stat file)) [
        | inl e ↦ unknown e (rw (e, module_default_handle_request) (refl, refl, refl, refl))
        | inr (st, e) ↦ elim (Bool-cases (is_forbidden st)) [
          | inl closed ↦
              unreadable st e (closed-unreadable st closed)
                (rw (e, module_default_handle_request, closed) (refl, refl, refl, refl))
          | inr free ↦ elim (Option-cases (open_file file)) [
            | inl f ↦ unopened st e (free-Readable st free) f (
                rw (e, module_default_handle_request, free, f, serve_file) (refl, refl, refl, refl))
            | inr (fd, f) ↦ served st fd e (free-Readable st free) f (
                rw (e, module_default_handle_request, free, f, serve_file) (refl, refl, refl, refl))
          ]
        ]
      ]

  -- A request with a method other than GET is refused with 400. One with GET is about the default page
  -- below the root if its path is "/", and about the path below the root if not: it is refused with
  -- 404 exactly if there is no such file or a readable one cannot be opened, and with 403 if the file
  -- is not a regular one that its owner may read; else it is served, with status 200, the open file
  -- as its body, with its size cut to an `int`, and the type for what is behind the last dot of its
  -- path. A refusal changes nothing but the status.
  pub module_default_handle_request-AnswersTo :
      (method : Method) (path : Bytes) (a : Answer)
      → AnswersTo stat open_file root default_page path a method
          (module_default_handle_request stat open_file root default_page method path a)
  module_default_handle_request-AnswersTo get path a = (
    file_path root default_page path,
    extension path,
    file_path-Names root default_page path,
    extension-Extends path,
    answer_get path a,
  )
  module_default_handle_request-AnswersTo post path a =
      unfold module_default_handle_request in (refl, refl, refl, refl)
  module_default_handle_request-AnswersTo head path a =
      unfold module_default_handle_request in (refl, refl, refl, refl)
  module_default_handle_request-AnswersTo put path a =
      unfold module_default_handle_request in (refl, refl, refl, refl)
