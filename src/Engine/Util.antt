-- ===== src/Engine/Util.antt =====
-- util.go: the checked conversion and the deprecated MultiError.
use migrate.Prelude.{
  ℕ, ℤ, pos, negsuc, Bytes, Option, none, some, List, [], ◌∷◌, ◌++◌, ltb, if◌then◌else◌, length,
}
use migrate.Errors.{Error}

-- `suint`; `none` is its panic on a negative number.
unfoldable pub suint : ℤ → Option ℕ
suint (pos n) = some n
suint (negsuc n) = none

-- The errors of NewMultiError: those that are not nil.
unfoldable pub new_multi_error : List (Option Error) → List Error
new_multi_error [] = []
new_multi_error (none ∷ errs) = new_multi_error errs
new_multi_error (some e ∷ errs) = e ∷ new_multi_error errs

-- `strings.Join`.
unfoldable pub join : Bytes → List Bytes → Bytes
join sep [] = []
join sep (s ∷ []) = s
join sep (s ∷ t ∷ ts) = s ++ sep ++ join sep (t ∷ ts)

non_empty : List Bytes → List Bytes
non_empty [] = []
non_empty (s ∷ ss) = if ltb 0 (length s) then s ∷ non_empty ss else non_empty ss

messages : (Error → Bytes) → List Error → List Bytes
messages text [] = []
messages text (e ∷ es) = text e ∷ messages text es

-- `MultiError.Error`, over the texts of the single errors: the ones that are not empty, joined by
-- " and ".
unfoldable pub multi_error_text : (Error → Bytes) → List Error → Bytes
unfolding join non_empty messages
multi_error_text text errs =
    join (b' ' ∷ b'a' ∷ b'n' ∷ b'd' ∷ b' ' ∷ []) (non_empty (messages text errs))
