-- ===== src/ResourceQueue/Waiting.antt =====
-- The granting loop of `drain_queue` (agent/utils.c) on the list of the waiting requests.
use mathlib.Core.List.{append_assoc, reverse-cons}
use tp_sistemas_operativos_i.Prelude.{
  ◌≡◌, refl, sym, ap, ◌∙◌, List, [], ◌∷◌, ◌++◌, reverse, map, false, if◌then◌else◌, arith,
  Bool-cases, inl, inr, All,
}
use tp_sistemas_operativos_i.Prelude.Int.{
  ℤ, pos, pos_part, neg_part, ◌+ℤ◌, ◌-ℤ◌, ◌≤ℤ◌, ◌<ℤ◌, leb_ℤ, leb_ℤ→le, leb_ℤ→lt, sum_ℤ, int_laws,
}

-- What the loop leaves: the free amount, the requests that still wait, and the stash `ready`.
pub record Drained {ℓ} (A : Type ℓ) : Type ℓ where
  pub left : ℤ
  pub waiting : List A
  pub ready : List A

module _ {ℓ} {A : Type ℓ} (amount : A → ℤ) where
  unfoldable pub drain_list : ℤ → List A → List A → Drained A
  drain_list left [] ready = record { left = left; waiting = []; ready = ready }
  drain_list left (r ∷ rs) ready =
      let rest = drain_list (left -ℤ amount r) rs (r ∷ ready) in
      if leb_ℤ (amount r) left
      then rest
      else record { left = left; waiting = r ∷ rs; ready = ready }

  -- The head, if there is one, asks for more than is free.
  abbrev pub Blocked : ℤ → List A → Type 0
  Blocked left [] = Unit {0}
  Blocked left (r ∷ rs) = left <ℤ amount r

  -- The loop's outcome: a prefix of the queue was granted, the stash has it backwards, its amounts
  -- were taken from what was free, and the head that stopped the loop does not fit.
  pub record Drains (left : ℤ) (rs ready : List A) (d : Drained A) : Type ℓ where
    pub granted : List A
    pub fifo : rs ≡ granted ++ d.waiting
    pub stash : d.ready ≡ reverse granted ++ ready
    pub conserves : d.left +ℤ sum_ℤ amount granted ≡ left

  pub drain_list-Drains :
      (left : ℤ) (rs ready : List A) → Drains left rs ready (drain_list left rs ready)
  unfolding drain_list sum_ℤ
  drain_list-Drains left [] ready = record {
    granted = [];
    fifo = refl;
    stash = refl;
    conserves = omega int_laws;
  }
  drain_list-Drains left (r ∷ rs) ready = elim (Bool-cases (leb_ℤ (amount r) left)) [
    | inr stop ↦
        rw stop (record { granted = []; fifo = refl; stash = refl; conserves = omega int_laws })
    | inl fits ↦
        let ih = drain_list-Drains (left -ℤ amount r) rs (r ∷ ready) in
        rw fits (record {
          granted = r ∷ ih.granted;
          fifo = ap (◌∷◌ r) ih.fifo;
          stash =
              ih.stash
              ∙ sym (
                  ap (λ (l : List A). l ++ ready) (reverse-cons r ih.granted)
                  ∙ append_assoc (reverse ih.granted) (r ∷ []) ready);
          conserves = omega (int_laws, ap pos_part ih.conserves, ap neg_part ih.conserves);
        })
  ]

  pub drain_list-Blocked :
      (left : ℤ) (rs ready : List A) → let d = drain_list left rs ready in Blocked d.left d.waiting
  unfolding drain_list
  drain_list-Blocked left [] ready = tt
  drain_list-Blocked left (r ∷ rs) ready = elim (Bool-cases (leb_ℤ (amount r) left)) [
    | inr stop ↦ rw stop (leb_ℤ→lt (amount r) left stop)
    | inl fits ↦ rw fits (drain_list-Blocked (left -ℤ amount r) rs (r ∷ ready))
  ]

  -- What is free never becomes negative, whatever the amounts are.
  pub drain_list-left :
      (left : ℤ) (rs ready : List A) → pos 0 ≤ℤ left → pos 0 ≤ℤ (drain_list left rs ready).left
  unfolding drain_list
  drain_list-left left [] ready h = h
  drain_list-left left (r ∷ rs) ready h = elim (Bool-cases (leb_ℤ (amount r) left)) [
    | inr stop ↦ rw stop h
    | inl fits ↦
        let le = leb_ℤ→le (amount r) left fits in
        rw fits (drain_list-left (left -ℤ amount r) rs (r ∷ ready) (omega int_laws))
  ]

  -- A second pass grants nothing.
  pub drain_list-Blocked_lem :
      (left : ℤ) (rs ready : List A)
      → Blocked left rs
      → drain_list left rs ready ≡ record { left = left; waiting = rs; ready = ready }
  unfolding drain_list
  drain_list-Blocked_lem left [] ready b = refl
  drain_list-Blocked_lem left (r ∷ rs) ready b =
      let stop : leb_ℤ (amount r) left ≡ false = ground arith in rw stop

  pub drain_list-waiting-All :
      (P : A → Type 0) (left : ℤ) (rs ready : List A)
      → All P rs
      → All P (drain_list left rs ready).waiting
  unfolding drain_list
  drain_list-waiting-All P left [] ready h = tt
  drain_list-waiting-All P left (r ∷ rs) ready h = elim (Bool-cases (leb_ℤ (amount r) left)) [
    | inr stop ↦ rw stop h
    | inl fits ↦ rw fits (drain_list-waiting-All P (left -ℤ amount r) rs (r ∷ ready) h.1)
  ]

  pub drain_list-ready-All :
      (P : A → Type 0) (left : ℤ) (rs ready : List A)
      → All P rs
      → All P ready
      → All P (drain_list left rs ready).ready
  unfolding drain_list
  drain_list-ready-All P left [] ready h k = k
  drain_list-ready-All P left (r ∷ rs) ready h k = elim (Bool-cases (leb_ℤ (amount r) left)) [
    | inr stop ↦ rw stop k
    | inl fits ↦ rw fits (drain_list-ready-All P (left -ℤ amount r) rs (r ∷ ready) h.1 (h.0, k))
  ]

-- The loop on a list with more in its items, such as addresses, is the loop on what `f` reads there.
pub drain_list-map {ℓ κ} :
    {A : Type ℓ} {B : Type κ} (amount : B → ℤ) (f : A → B) (left : ℤ) (rs ready : List A)
    → let d = drain_list (λ a. amount (f a)) left rs ready in
      drain_list amount left (map f rs) (map f ready)
      ≡ record { left = d.left; waiting = map f d.waiting; ready = map f d.ready }
unfolding drain_list
drain_list-map amount f left [] ready = refl
drain_list-map amount f left (r ∷ rs) ready = elim (Bool-cases (leb_ℤ (amount (f r)) left)) [
  | inr stop ↦ rw stop
  | inl fits ↦ rw fits (drain_list-map amount f (left -ℤ amount (f r)) rs (r ∷ ready))
]
