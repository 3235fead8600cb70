-- ===== src/Database/Multistmt/Scan.antt =====
-- What `Parse` hands to its handler, against a split of the whole text.
use migrate.Prelude.{
  ℕ, zero, suc, ◌<◌, ◌≤◌, ◌≡◌, refl, sym, ap, ◌∙◌, inl, inr, Bool, true, false, Bytes, Option, none,
  List, [], ◌∷◌, ◌++◌, length, length-append, arith, Option-cases, Bool-cases, leb, if◌then◌else◌,
}
use mathlib.Core.List.{append_assoc, append-nil}
use migrate.Errors.{Error}
use migrate.Database.Multistmt.Cut.{cut_longer}
use migrate.Database.Multistmt.{
  Chunks, chunk, last, eof, cut_after, split_with_delimiter, Progress, more, enough, drain, go_on,
  drain_rest, scan_rest, over, max_buffer, max_empty_reads, scan, parse,
}
use migrate.Database.Multistmt.Pieces.{Pieces, parts-Pieces}
use migrate.Database.Multistmt.Parts.{parts, parts_within, parts_cut, behind-lt}

-- The text of a reader, and whether its end comes by itself, after the last chunk.
abbrev pub text_of : Chunks → Bytes
text_of (chunk bytes reader) = bytes ++ text_of reader
text_of (last bytes) = bytes
text_of eof = []

abbrev pub ends_apart : Chunks → Bool
ends_apart (chunk bytes reader) = ends_apart reader
ends_apart (last bytes) = false
ends_apart eof = true

-- The reader returns no data at most a hundred times in a row, where `empties` is how often it just did.
abbrev pub few_empty : ℕ → Chunks → Bool
few_empty empties (chunk [] reader) =
    let rest = few_empty (suc empties) reader in if leb max_empty_reads empties then false else rest
few_empty empties (chunk (c ∷ bytes) reader) = few_empty 0 reader
few_empty empties (last bytes) = true
few_empty empties eof = true

lt→leb : (a b : ℕ) → a < b → leb b a ≡ false
lt→leb a b h = ground arith

-- A handler gets one statement after another, as long as it wants more.
module _ {S : Type 0} (p : Bytes) (limit : ℕ) (h : Bytes → S → Bool × S) where
  abbrev pub then_feed : Progress S → (S → Progress S) → Progress S
  then_feed (more s) k = k s
  then_feed (enough s) k = enough s

  unfoldable pub feed : List Bytes → S → Progress S
  feed [] s = more s
  feed (t ∷ ts) s = then_feed (go_on p limit h (h t s)) (feed ts)

  abbrev pub final : Progress S → Option Error × S
  final (more s) = (none, s)
  final (enough s) = (none, s)

  -- `drain` got to `expected`, or to a place from where what is left, with the text `t`, leads there.
  Fits : Bytes → ℕ → Progress S → Bytes × Progress S → Type 0
  Fits t size expected (buf, enough s) = expected ≡ enough s
  Fits t size expected (buf, more s) =
      (expected ≡ feed (parts p (buf ++ t)) s) × ((cut_after p buf ≡ none) × (length buf ≤ size))

  rest-Fits :
      (t : Bytes) (size : ℕ) (expected : S → Progress S) (rest : S → Bytes × Progress S)
      → ((s : S) → Fits t size (expected s) (rest s))
      → (r : Progress S) → Fits t size (then_feed r expected) (drain_rest p limit h r rest)
  unfolding Fits
  rest-Fits t size expected rest fits (more s) = fits s
  rest-Fits t size expected rest fits (enough s) = refl

  module _ (room : 0 < length p) where
    drain-Fits :
        (t : Bytes) (size fuel : ℕ) (buf : Bytes) (s : S)
        → length buf < fuel
        → length buf ≤ size
        → Fits t size (feed (parts p (buf ++ t)) s) (drain p limit h fuel buf false s)
    unfolding Fits drain split_with_delimiter feed
    drain-Fits t size zero buf s lt le = absurd (omega arith)
    drain-Fits t size (suc fuel) buf s lt le = elim (Option-cases (cut_after p buf)) [
      | inl e ↦ rw e (refl, (e, le))
      | inr ((token, rest), e) ↦
          rw (e, parts_cut p room (buf ++ t) token (rest ++ t) (cut_longer p buf token rest t e))
            (rest-Fits t size (feed (parts p (rest ++ t))) (drain p limit h fuel rest false)
              (λ s1.
                drain-Fits t size fuel rest s1 (omega (arith, behind-lt p room buf token rest e))
                  (omega (arith, behind-lt p room buf token rest e)))
              (go_on p limit h (h token s)))
    ]

    scan_rest-final :
        (t : Bytes) (size : ℕ) (expected : Progress S) (rest : Bytes → S → Option Error × S)
        → size < max_buffer limit
        → ((buf : Bytes) (s : S)
            → cut_after p buf ≡ none
            → length buf ≤ size
            → rest buf s ≡ final (feed (parts p (buf ++ t)) s))
        → (r : Bytes × Progress S) → Fits t size expected r
        → scan_rest p limit h r rest ≡ final expected
    unfolding Fits
    scan_rest-final t size expected rest small next (buf, enough s) fits = ap final (sym fits)
    scan_rest-final t size expected rest small next (buf, more s) (same, (none_left, le)) =
        rw roomy (next buf s none_left le ∙ ap final (sym same))
      where
        roomy : leb (max_buffer limit) (length buf) ≡ false
        roomy = lt→leb (length buf) (max_buffer limit) (omega arith)

    last-final :
        (n : ℕ) (r : Progress S)
        → over p limit h (drain_rest p limit h r (drain p limit h (suc n) [] true))
          ≡ final (then_feed r (feed []))
    unfolding drain split_with_delimiter feed
    last-final n (more s) = refl
    last-final n (enough s) = refl

    scan-eof :
        (empties : ℕ) (buf : Bytes) (s : S)
        → cut_after p buf ≡ none
        → scan p limit h eof empties buf s ≡ final (feed (parts p buf) s)
    unfolding scan drain split_with_delimiter feed parts_within cut_after
    scan-eof empties [] s e = refl
    scan-eof empties (c ∷ buf) s e =
        rw e (last-final (length buf) (go_on p limit h (h (c ∷ buf) s)))

    scan-final :
        (reader : Chunks) (empties : ℕ) (buf : Bytes) (s : S)
        → ends_apart reader ≡ true
        → few_empty empties reader ≡ true
        → cut_after p buf ≡ none
        → length (buf ++ text_of reader) < max_buffer limit
        → scan p limit h reader empties buf s ≡ final (feed (parts p (buf ++ text_of reader)) s)
    unfolding scan drain
    scan-final eof empties buf s apart few e small =
        scan-eof empties buf s e ∙ ap (λ b. final (feed (parts p b) s)) (sym (append-nil buf))
    scan-final (last bytes) empties buf s apart few e small = cc
    scan-final (chunk [] reader) empties buf s apart few e small =
        elim (Bool-cases (leb max_empty_reads empties)) [
          | inl many ↦ absurd (cc (rw many at few))
          | inr ok ↦ rw ok (scan-final reader (suc empties) buf s apart (rw ok at few) e small)
        ]
    scan-final (chunk (c ∷ cs) reader) empties buf s apart few e small =
        scan_rest-final (text_of reader) (length (buf ++ (c ∷ cs)))
          (feed (parts p ((buf ++ (c ∷ cs)) ++ text_of reader)) s) (scan p limit h reader 0)
          (omega (arith, total, length-append (buf ++ (c ∷ cs)) (text_of reader)))
          (λ b s1 none_left le. scan-final reader 0 b s1 apart few none_left (
            omega (
              arith,
              total,
              le,
              length-append b (text_of reader),
              length-append (buf ++ (c ∷ cs)) (text_of reader),
            )))
          (drain p limit h (suc (length (buf ++ (c ∷ cs)))) (buf ++ (c ∷ cs)) false s)
          (drain-Fits (text_of reader) (length (buf ++ (c ∷ cs))) (suc (length (buf ++ (c ∷ cs))))
            (buf ++ (c ∷ cs)) s (omega arith) (omega arith))
        ∙ ap (λ text. final (feed (parts p text) s)) (append_assoc buf (c ∷ cs) (text_of reader))
      where
        total : length ((buf ++ (c ∷ cs)) ++ text_of reader) < max_buffer limit
        total = rw (append_assoc buf (c ∷ cs) (text_of reader)) small

    -- With a delimiter that is not empty, a reader that announces its end by itself and returns no data at most a
    -- hundred times in a row, and a text that fits the buffer, in whatever chunks it is read: Parse returns nil and
    -- hands to its handler, as long as the handler wants more, the parts of the whole text. These are its pieces:
    -- each ends with the first delimiter of what is left of the text, but for the last one if it has none.
    pub parse-parts :
        (reader : Chunks) (s : S)
        → ends_apart reader ≡ true
        → few_empty 0 reader ≡ true
        → length (text_of reader) < max_buffer limit
        → (parse p limit h reader s ≡ final (feed (parts p (text_of reader)) s))
          × Pieces p (text_of reader) (parts p (text_of reader))
    unfolding parse cut_after
    parse-parts reader s apart few small =
        (scan-final reader 0 [] s apart few no_cut small, parts-Pieces p room (text_of reader))
      where
        no_cut : cut_after p [] ≡ none
        no_cut = refl
