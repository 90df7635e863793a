-- ===== src/Portable/Loop.antt =====
-- The loops of app/portable.py over the entries of a document, one for each table.
use hivesync.Prelude.{
  ◌≡◌, refl, ap, ◌∙◌, sym, Bool, true, false, Bool-cases, inl, inr, List, [], ◌∷◌, ◌++◌, append-nil,
  append_assoc, Text, map, ◌||◌, text_eq, arith,
}
use hivesync.Parsers.{member}
use hivesync.Portable.Import.{ImportReport, Progress}

-- Each name of the first list is in the second.
abbrev pub Covers : List Text → List Text → Type 0
Covers names xs = (n : Text) → member n xs ≡ true → member n names ≡ true

member-append_one :
    (n m : Text) (xs : List Text) → member n (xs ++ m ∷ []) ≡ (text_eq n m || member n xs)
member-append_one n m [] = refl
member-append_one n m (x ∷ xs) = ground (arith, member-append_one n m xs)

module _ {Row : Type 0} (key : Row → Text) where
  map-append_one :
      (rows : List Row) (r : Row) → map key (rows ++ r ∷ []) ≡ map key rows ++ key r ∷ []
  map-append_one [] r = refl
  map-append_one (x ∷ rows) r = ap (λ ns. key x ∷ ns) (map-append_one rows r)

module _ {Entry Row : Type 0} (key : Row → Text) (step : Entry → Progress Row → Progress Row)
    (idle : List Text → Entry → Bool) where
  abbrev pub each : List Entry → Progress Row → Progress Row
  each [] p = p
  each (e ∷ es) p = each es (step e p)

  -- What a step does: nothing for an entry that is idle, and else one new row, which makes it idle.
  pub record IsStep : Type 0 where
    pub passes :
        (e : Entry) (p : Progress Row)
        → idle p.0 e ≡ true
        → ((step e p).0 ≡ p.0) × ((step e p).1 ≡ p.1)
    pub adds :
        (e : Entry) (p : Progress Row)
        → idle p.0 e ≡ false
        → (r : Row) × ((step e p).0 ≡ key r ∷ p.0)
          × ((step e p).1 ≡ p.1 ++ r ∷ [])
          × (idle (key r ∷ p.0) e ≡ true)
    pub covered :
        (e : Entry) (xs ys : List Text) → Covers ys xs → idle xs e ≡ true → idle ys e ≡ true

  abbrev pub AllIdle : List Text → List Entry → Type 0
  AllIdle names [] = Unit
  AllIdle names (e ∷ es) = (idle names e ≡ true) × AllIdle names es

  module _ (is : IsStep) where
    each-idle : (es : List Entry) (p : Progress Row) → AllIdle p.0 es → (each es p).1 ≡ p.1
    each-idle [] p all = refl
    each-idle (e ∷ es) p all =
        let (same, rows) = is.passes e p all.0 in each-idle es (step e p) (rw same all.1) ∙ rows

    -- The names of the rows cover those that are taken.
    abbrev pub IsSettled : Progress Row → Type 0
    IsSettled p = Covers (map key p.1) p.0

    abbrev Grown : Progress Row → Progress Row → Type 0
    Grown p q = ((new : List Row) × (q.1 ≡ p.1 ++ new)) × Covers (map key q.1) (map key p.1)

    step-settles :
        (e : Entry) (p : Progress Row)
        → IsSettled p
        → IsSettled (step e p) × Grown p (step e p) × (idle (step e p).0 e ≡ true)
    step-settles e p settled = elim (Bool-cases (idle p.0 e)) [
      | inl pass ↦
          let (same, rows) = is.passes e p pass in
          (
            rw rows rw same settled,
            (([], rows ∙ sym (append-nil p.1)), rw rows (λ n h. h)),
            rw same pass,
          )
      | inr new ↦
          let (r, names, rows, idle_now) = is.adds e p new in
          let keys : map key (step e p).1 ≡ map key p.1 ++ key r ∷ [] =
            ap (map key) rows ∙ map-append_one key p.1 r in
          (
            rw keys rw names
                (λ n h. ground (arith, h, settled n, member-append_one n (key r) (map key p.1))),
            (
              (r ∷ [], rows),
              rw keys (λ n h. ground (arith, h, member-append_one n (key r) (map key p.1))),
            ),
            rw names idle_now,
          )
    ]

    pub each-settles :
        (es : List Entry) (p : Progress Row)
        → IsSettled p
        → Grown p (each es p) × AllIdle (map key (each es p).1) es
    each-settles [] p settled = ((([], sym (append-nil p.1)), λ n h. h), tt)
    each-settles (e ∷ es) p settled =
        let (settled', grown, idle_now) = step-settles e p settled in
        let (later, all) = each-settles es (step e p) settled' in
        (
          (
            (
              grown.0.0 ++ later.0.0,
              later.0.1
                  ∙ ap (λ xs. xs ++ later.0.0) grown.0.1
                  ∙ append_assoc p.1 grown.0.0 later.0.0,
            ),
            λ n h. later.1 n (grown.1 n h),
          ),
          (
            is.covered e (step e p).0 (map key (each es (step e p)).1)
                (λ n h. later.1 n (settled' n h)) idle_now,
            all,
          ),
        )

    -- A second pass over the same entries adds no row.
    pub each-twice :
        (es : List Entry) (p : Progress Row) (report : ImportReport)
        → IsSettled p
        → (each es (map key (each es p).1, (each es p).1, report)).1 ≡ (each es p).1
    each-twice es p report settled =
        each-idle es (map key (each es p).1, (each es p).1, report) (each-settles es p settled).1
