-- ===== src/Tokenizer/Windows.antt =====
-- The texts that `decode_incremental` emits, joined, against the text of all tokens.
use mathlib.Core.List.{append_assoc, append-nil}
use llm_serving_engine.Base.{
  drop-append, ℕ, ◌+◌, ◌-◌, ◌≤◌, ◌<◌, ◌≡◌, ◌⊎◌, refl, sym, ap, ◌∙◌, subst, inl, inr, Option, false,
  ◌||◌, some, none, List, [], ◌∷◌, ◌++◌, length, take, drop, take-append, take-append-drop,
  length-drop, length-append, leb, Bool-cases, if◌then◌else◌, last_or, ◌==◌, arith,
}
use llm_serving_engine.Sequence.{slice}
use llm_serving_engine.Tokenizer.{Text, is_held, Window, first_window, kept, decode_window}

-- What the windows rely on: of tokens that end at complete characters, the text that follows `ys`
-- does not depend on what stands before `ys`, if `ys` is not empty.
pub record HasMergeContext (decode : List ℕ → Text) : Type 0 where
  pub empty : decode [] ≡ []
  pub context :
      (xs ys zs : List ℕ)
      → is_held (decode xs) ≡ false
      → is_held (decode (xs ++ ys)) ≡ false
      → (xs ≡ []) ⊎ (0 < length ys)
      → decode (xs ++ (ys ++ zs))
        ≡ decode (xs ++ ys) ++ drop (length (decode ys)) (decode (ys ++ zs))

slice-parts :
    (xs ys zs : List ℕ) → slice (xs ++ (ys ++ zs)) (length xs) (length xs + length ys) ≡ ys
slice-parts xs ys zs =
    let width : length xs + length ys - length xs ≡ length ys = omega arith in
    rw (width, drop-append xs (ys ++ zs)) (take-append ys zs)

last_or-append : (d e : ℕ) (xs ys : List ℕ) → last_or d (xs ++ e ∷ ys) ≡ last_or e ys
last_or-append d e [] ys = refl
last_or-append d e (x ∷ xs) ys = last_or-append x e xs ys

is_held-append : (xs ys : List ℕ) → 0 < length ys → is_held (xs ++ ys) ≡ is_held ys
is_held-append xs [] h = absurd (omega arith)
is_held-append [] (y ∷ ys) h = refl
is_held-append (x ∷ xs) (y ∷ ys) h = ap (λ c. c == 65533) (last_or-append x y xs ys)

-- A text ends as what is left of it by a drop.
is_held-drop : (k : ℕ) (text : Text) → k < length text → is_held (drop k text) ≡ is_held text
is_held-drop k text h =
    let rest : 0 < length (drop k text) = omega (arith, length-drop k text) in
    sym (is_held-append (take k text) (drop k text) rest) ∙ ap is_held (take-append-drop k text)

is_held-tail : (a text : Text) (k : ℕ) → k < length text → is_held (a ++ drop k text) ≡ is_held text
is_held-tail a text k h =
    is_held-append a (drop k text) (omega (arith, length-drop k text)) ∙ is_held-drop k text h

module _ (decode : List ℕ → Text) where
  -- Calls of `decode_window` as the tokens come in: the emitted texts joined, and the last window.
  unfoldable pub feed : Window → List ℕ → List ℕ → Text × Window
  feed w seen [] = ([], w)
  feed w seen (t ∷ ts) =
      let (text, w') = decode_window decode w (seen ++ t ∷ []) in
      let (rest, last) = feed (kept w w') (seen ++ t ∷ []) ts in (text ++ rest, last)

  -- The window whose prefix is `ys`, after `xs`.
  abbrev pub on : (xs ys : List ℕ) → Window
  on xs ys = record { prefix = length xs; read = length xs + length ys }

  on-append :
      (xs ys zs : List ℕ)
      → record { prefix = length xs + length ys; read = length (xs ++ (ys ++ zs)) }
        ≡ on (xs ++ ys) zs
  on-append xs ys zs =
      let start : length xs + length ys ≡ length (xs ++ ys) = sym (length-append xs ys) in
      let end : length (xs ++ (ys ++ zs)) ≡ length (xs ++ ys) + length zs =
        omega (arith, length-append xs ys, length-append xs (ys ++ zs), length-append ys zs) in
      rw (start, end) refl

  -- What `feed` makes of the result of a call.
  abbrev go_on : Window → Text × Option Window → (seen ts : List ℕ) → Text × Window
  go_on w (text, w') seen ts = let (rest, last) = feed (kept w w') seen ts in (text ++ rest, last)

  module _ (law : HasMergeContext decode) where
    -- What a call may assume of the window that the calls before it left.
    record IsOpen (xs ys : List ℕ) : Type 0 where
      near : (xs ≡ []) ⊎ (0 < length ys)
      prefix_complete : is_held (decode xs) ≡ false
      read_complete : is_held (decode (xs ++ ys)) ≡ false

    -- A call emits nothing and stores nothing, or it emits what is missing up to the last token.
    data Called (xs ys zs : List ℕ) (r : Text × Option Window) : Type 0 where
      holds : r ≡ ([], none) → Called xs ys zs r
      emits :
          (text : Text)
          → r ≡ (text, some (on (xs ++ ys) zs))
          → decode (xs ++ (ys ++ zs)) ≡ decode (xs ++ ys) ++ text
          → IsOpen (xs ++ ys) zs
          → Called xs ys zs r

    decode_window-on :
        (xs ys zs : List ℕ)
        → decode_window decode (on xs ys) (xs ++ (ys ++ zs)) ≡ (
            let text = decode (ys ++ zs) in
            if leb (length text) (length (decode ys)) || is_held text then ([], none) else (
              drop (length (decode ys)) text,
              some (record { prefix = length xs + length ys; read = length (xs ++ (ys ++ zs)) }),
            ))
    unfolding decode_window
    decode_window-on xs ys zs = rw (slice-parts xs ys zs, drop-append xs (ys ++ zs)) refl

    window-call :
        (xs ys zs : List ℕ)
        → IsOpen xs ys
        → 0 < length zs
        → Called xs ys zs (decode_window decode (on xs ys) (xs ++ (ys ++ zs)))
    window-call xs ys zs h some_new =
        let text = decode (ys ++ zs) in
        let k = length (decode ys) in
        elim (Bool-cases (leb (length text) k || is_held text)) [
          | inl held ↦ holds (decode_window-on xs ys zs ∙ rw held refl)
          | inr free ↦
              let joined = law.context xs ys zs h.prefix_complete h.read_complete h.near in
              let longer : k < length text = ground (arith, free) in
              emits (drop k text)
                (decode_window-on xs ys zs
                  ∙ (rw free refl ∙ ap (λ w. (drop k text, some w)) (on-append xs ys zs)))
                joined
                (record {
                  near = inr some_new;
                  prefix_complete = h.read_complete;
                  read_complete =
                      ap (λ l. is_held (decode l)) (append_assoc xs ys zs)
                      ∙ (ap is_held joined
                          ∙ (is_held-tail (decode (xs ++ ys)) text k longer
                              ∙ ground (arith, free)));
                })
        ]

    -- What a run of calls emits, after the text of `base`, is the text of all tokens up to the end
    -- of the last window.
    abbrev Emitted : (all base : List ℕ) → Text × Window → Type 0
    Emitted all base (text, w) =
        (decode (take w.read all) ≡ decode base ++ text) × (w.read ≤ length all)

    feed-Emitted :
        (ts xs ys zs seen : List ℕ)
        → seen ≡ xs ++ (ys ++ zs)
        → IsOpen xs ys
        → Emitted (seen ++ ts) (xs ++ ys) (feed (on xs ys) seen ts)
    unfolding feed
    feed-Emitted [] xs ys zs seen e h =
        let all : seen ++ [] ≡ (xs ++ ys) ++ zs =
          append-nil seen ∙ (e ∙ sym (append_assoc xs ys zs)) in
        let cut : take (length xs + length ys) (seen ++ []) ≡ xs ++ ys =
          rw (all, ← length-append xs ys) (take-append (xs ++ ys) zs) in
        (
          ap decode cut ∙ sym (append-nil (decode (xs ++ ys))),
          omega (arith, ap length all, length-append (xs ++ ys) zs, length-append xs ys),
        )
    feed-Emitted (t ∷ ts) xs ys zs seen e h =
        let tokens = seen ++ t ∷ [] in
        let new = zs ++ t ∷ [] in
        let all : tokens ≡ xs ++ (ys ++ new) = rw (e, append_assoc, append_assoc) refl in
        let joined : tokens ++ ts ≡ seen ++ t ∷ ts = append_assoc seen (t ∷ []) ts in
        let call : Called xs ys new (decode_window decode (on xs ys) tokens) =
          subst (λ l. Called xs ys new (decode_window decode (on xs ys) l)) (sym all)
            (window-call xs ys new h (omega (arith, length-append zs (t ∷ [])))) in
        elim call [
          | holds same ↦
              subst (λ r. Emitted (seen ++ t ∷ ts) (xs ++ ys) (go_on (on xs ys) r tokens ts))
                (sym same)
                (subst (λ l. Emitted l (xs ++ ys) (feed (on xs ys) tokens ts)) joined
                  (feed-Emitted ts xs ys new tokens all h))
          | emits text got more next ↦
              let later = feed (on (xs ++ ys) new) tokens ts in
              let rest =
                feed-Emitted ts (xs ++ ys) new [] tokens
                  (all
                    ∙ (sym (append_assoc xs ys new)
                        ∙ ap (λ l. (xs ++ ys) ++ l) (sym (append-nil new))))
                  next in
              subst (λ r. Emitted (seen ++ t ∷ ts) (xs ++ ys) (go_on (on xs ys) r tokens ts))
                (sym got)
                (subst
                  (λ l.
                    Emitted l (xs ++ ys)
                      (go_on (on xs ys) (text, some (on (xs ++ ys) new)) tokens ts))
                  joined
                  (
                    rest.0
                        ∙ (ap (λ l. l ++ later.0) (ap decode (append_assoc xs ys new) ∙ more)
                            ∙ append_assoc (decode (xs ++ ys)) text later.0),
                    rest.1,
                  ))
        ]

    -- The text that feeding gives is the decoding of the tokens that the window has read.
    pub feed-text :
        (ts : List ℕ)
        → let (text, w) = feed first_window [] ts in
          (text ≡ decode (take w.read ts)) × (w.read ≤ length ts)
    feed-text ts =
        let held : is_held (decode []) ≡ false = ap is_held law.empty in
        let (emitted, inside) =
          feed-Emitted ts [] [] [] [] refl
            (record { near = inl refl; prefix_complete = held; read_complete = held }) in
        (sym (emitted ∙ ap (λ l. l ++ (feed first_window [] ts).0) law.empty), inside)
