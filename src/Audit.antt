-- ===== src/Audit.antt =====
-- knox-proxy/audit/audit.go: the audit log, which is set up once, and where its lines go. Opening a file
-- is a parameter. The start of main opens it.
use knox_proxy.Base.{
  Bool-cases, ◌++◌, ◌≡◌, bytes, if◌then◌else◌, Option, List, Str, Bool, false, true, none, some,
  inr, inl, refl, ◌∷◌, [],
}

-- The package's variables; the logger is the path of its file.
pub record Audit : Type 0 where
  pub done : Bool
  pub logger : Option Str

abbrev pub not_started : Audit
not_started = record { done = false; logger = none }

-- Init, with whether it returns an error.
unfoldable pub init : (Str → Bool) → Str → Audit → Bool × Audit
init opens path a =
    if a.done
    then (false, a)
    else if opens path
    then (false, record { done = true; logger = some path })
    else (true, record { done = true; logger = none })

pub data Line : Type 0 where
  in_file : (path message : Str) → Line
  in_default_log : Str → Line

-- Log
unfoldable pub log : Audit → Str → Line
log a message = elim a.logger [
  | none ↦ in_default_log (bytes "[AUDIT] " ++ message)
  | some path ↦ in_file path message
]

-- What main does with the audit log, to the lines that it writes there.
unfoldable pub start_audit : (Str → Bool) → Audit → List Line × Audit
unfolding init log
start_audit opens a =
    let (failed, a') = init opens (bytes "audit.log") a in
    (if failed then [] else log a' (bytes "Audit System Started") ∷ [], a')

-- Init again and again, each time with another path and other files that can be opened.
unfoldable pub init_again : List ((Str → Bool) × Str) → Audit → Audit
unfolding init
init_again [] a = a
init_again ((opens, path) ∷ later) a = init_again later (init opens path a).1

init_again_done :
    (later : List ((Str → Bool) × Str)) (logger : Option Str)
    → let settled : Audit = record { done = true; logger = logger } in
      init_again later settled ≡ settled
unfolding init_again init
init_again_done [] logger = refl
init_again_done ((opens, path) ∷ later) logger = init_again_done later logger

-- The first Init decides for good where the lines go: to its file if that can be opened, and to the
-- default log otherwise, whatever Inits follow.
log-init_again :
    (opens : Str → Bool) (path message : Str) (later : List ((Str → Bool) × Str))
    → log (init_again ((opens, path) ∷ later) not_started) message
      ≡ (if opens path then in_file path message else in_default_log (bytes "[AUDIT] " ++ message))
unfolding init_again init log
log-init_again opens path message later = elim (Bool-cases (opens path)) [
  | inl e ↦ rw (e, init_again_done later (some path)) refl
  | inr e ↦ rw (e, init_again_done later none) refl
]
