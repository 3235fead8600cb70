-- ===== src/Registry.antt =====
-- The registries of drivers of database/driver.go and source/driver.go.
use migrate.Prelude.{
  ◌≡◌, ◌≢◌, refl, sym, ◌∙◌, inl, inr, Bool, true, false, ◌&&◌, Bytes, Option, none, some, List, [],
  ◌∷◌, ◌++◌, ◌==◌, if◌then◌else◌, arith, Bool-cases, Option-cases, ◌↔◌,
}
use migrate.Prelude.Map.{Map, Eq, get, put, keys, get-put}
use migrate.Errors.{no_scheme, unknown_driver, Result, ok, err, ◌>>=◌}
use migrate.Url.{scheme_from_url, no_colon, scheme_from_url_lem}

abbrev pub bytes_beq : Bytes → Bytes → Bool
bytes_beq [] [] = true
bytes_beq [] (y ∷ ys) = false
bytes_beq (x ∷ xs) [] = false
bytes_beq (x ∷ xs) (y ∷ ys) = x == y && bytes_beq xs ys

pub bytes_beq_iff : (a b : Bytes) → (bytes_beq a b ≡ true) ↔ (a ≡ b)
bytes_beq_iff [] [] = ground arith
bytes_beq_iff [] (y ∷ ys) = ground arith
bytes_beq_iff (x ∷ xs) [] = ground arith
bytes_beq_iff (x ∷ xs) (y ∷ ys) = ground (arith, bytes_beq_iff xs ys)

instance abbrev pub bytes_eq : Eq Bytes
bytes_eq = record { beq = bytes_beq; beq_iff = bytes_beq_iff }

-- `A` is what is registered.
module _ {A : Type 0} where
  abbrev unless_registered : Option A → Map Bytes A → Option (Map Bytes A)
  unless_registered none drivers = some drivers
  unless_registered (some dup) drivers = none

  -- `Register`; a nil driver is `none`, and so is the result where the function panics.
  unfoldable pub register : Bytes → Option A → Map Bytes A → Option (Map Bytes A)
  register name none drivers = none
  register name (some driver) drivers =
      unless_registered (get name drivers) (put name driver drivers)

  -- `List`, in the order of the association list; Go's map has none.
  abbrev pub list : Map Bytes A → List Bytes
  list drivers = keys drivers

  register-some :
      (name : Bytes) (d : A) (m m' : Map Bytes A)
      → register name (some d) m ≡ some m'
      → (get name m ≡ none) × (put name d m ≡ m')
  unfolding register
  register-some name d m m' e = elim (Option-cases (get name m)) [
    | inl h ↦
        let y : ◌≡◌ {A = Option (Map Bytes A)} (some (put name d m)) (some m') = rw h at e in
        (h, cc)
    | inr (dup, h) ↦ let y : ◌≡◌ {A = Option (Map Bytes A)} none (some m') = rw h at e in cc
  ]

  module _ (name : Bytes) (d : A) (m m' : Map Bytes A)
      (e : register name (some d) m ≡ some m') where
    get_other : (j : Bytes) → j ≢ name → get j m' ≡ get j m
    get_other j n = elim (Bool-cases (bytes_beq name j)) [
      | inl h ↦ absurd (n (sym ((bytes_beq_iff name j).0 h)))
      | inr h ↦ rw⁻¹ ((register-some name d m m' e).1) (get-put name j d m ∙ rw h refl)
    ]

    get_name : get name m' ≡ some d
    get_name =
        let h : bytes_beq name name ≡ true = (bytes_beq_iff name name).1 refl in
        rw⁻¹ ((register-some name d m m' e).1) (get-put name name d m ∙ rw h refl)

    register-again : (d' : A) → register name (some d') m' ≡ none
    unfolding register
    register-again d' = rw get_name refl

-- `I` is what the `Open` of a registered driver gives.
module _ {A I : Type 0} (open_driver : A → Bytes → Result I) where
  abbrev open_found : Bytes → Option A → Result I
  open_found url none = err unknown_driver
  open_found url (some d) = open_driver d url

  -- `Open` of database/driver.go.
  unfoldable pub open_database : Map Bytes A → Bytes → Result I
  open_database drivers url = scheme_from_url url >>= λ scheme. open_found url (get scheme drivers)

  -- `Open` of source/driver.go; `url_scheme` is the scheme that `nurl.Parse` finds.
  unfoldable pub open_source : (Bytes → Result Bytes) → Map Bytes A → Bytes → Result I
  open_source url_scheme drivers url = url_scheme url >>= λ scheme.
      if bytes_beq scheme [] then err no_scheme else open_found url (get scheme drivers)

  -- After a Register that did not panic, of a name that can be a scheme, Open of database/driver.go
  -- opens that driver for the URLs of the name; the other names keep what they had, a second
  -- Register of the name panics, and so does Register of nil.
  pub register-open_database :
      (name : Bytes) (d : A) (drivers drivers' : Map Bytes A)
      → register name (some d) drivers ≡ some drivers'
      → name ≢ []
      → no_colon name ≡ true
      → ((rest : Bytes)
          → open_database drivers' (name ++ b':' ∷ rest) ≡ open_driver d (name ++ b':' ∷ rest))
        × ((j : Bytes) → j ≢ name → get j drivers' ≡ get j drivers)
        × ((d' : A) → register name (some d') drivers' ≡ none)
        × (register name none drivers' ≡ none)
  unfolding open_database register
  register-open_database name d drivers drivers' e n c = (
    λ rest.
        let s : scheme_from_url (name ++ b':' ∷ rest) ≡ ok name =
          (scheme_from_url_lem (name ++ b':' ∷ rest) name).1 (n, c, (rest, refl)) in
        rw (s, get_name name d drivers drivers' e) refl,
    get_other name d drivers drivers' e,
    register-again name d drivers drivers' e,
    refl,
  )
