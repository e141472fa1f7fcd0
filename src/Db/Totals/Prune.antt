-- ===== src/Db/Totals/Prune.antt =====
-- Taking a batch out of the 30-day totals again, as the pruning of stale rows does.
use esi_isk.Base.{
  ℕ, ◌+◌, ◌-◌, ◌*◌, ◌%◌, ◌^◌, ◌≤◌, ◌≡◌, refl, sym, Bool, List, [], ◌∷◌, map, keep, arith, length,
  ap, ◌∙◌, Bool-cases, inl, inr, not, ◌&&◌, ◌==◌,
}
use esi_isk.Base.Int.{pos}
use esi_isk.Base.Word.{dec64}
use esi_isk.Base.Float.{Float64}
use esi_isk.Db.Types.{Donation, CharacterRow}
use esi_isk.Db.Totals.{remove_from_row}
use esi_isk.Db.Totals.Laws.{
  Gift, gift_of_donation, given, gotten, total_from, IsEntered, HasCounters, add_all,
  add_all-IsEntered,
}

-- Whole numbers up to 2 ^ 53 are values of a float64, so that sums and differences of them that stay
-- in that range are not rounded.
pub record KeepsWhole {F : Type 0} (f : Float64 F) : Type 0 where
  pub add_whole :
      (m n : ℕ)
      → m + n ≤ 2 ^ 53
      → f.add (f.of_int (pos m)) (f.of_int (pos n)) ≡ f.of_int (pos (m + n))
  pub sub_whole :
      (m n : ℕ)
      → m + n ≤ 2 ^ 53
      → f.sub (f.of_int (pos (m + n))) (f.of_int (pos n)) ≡ f.of_int (pos m)

module _ {F : Type 0} ⦃f : Float64 F⦄ where
  open f use {of_int, add, sub}

  -- an amount of whole ISK
  abbrev pub whole : ℕ → F
  whole n = of_int (pos n)

  -- Each gift is worth whole ISK, and together they are worth n.
  abbrev pub AreWorth : List (Gift F) → ℕ → Type 0
  AreWorth [] n = n ≡ 0
  AreWorth (g ∷ gs) n = (m : ℕ) × (k : ℕ) × (g.worth ≡ whole m) × (AreWorth gs k) × (n ≡ m + k)

  abbrev pub take_from : F → List (Gift F) → F
  take_from x [] = x
  take_from x (g ∷ gs) = take_from (sub x g.worth) gs

  -- A batch of donations, taken out of one row in order.
  unfoldable pub remove_all : List (Donation F) → CharacterRow F → CharacterRow F
  remove_all [] c = c
  remove_all (d ∷ ds) c = remove_all ds (remove_from_row d c)

  -- `after` is `before` with the gifts taken out of the 30-day totals.
  pub record IsRemoved (gs : List (Gift F)) (before after : CharacterRow F) : Type 0 where
    pub same_id : after.id ≡ before.id
    pub donated_count_30 :
        after.donated_30 ≡ (before.donated_30 + (2 ^ 64 - 1) * length (given before.id gs)) % 2 ^ 64
    pub received_count_30 :
        after.received_30
        ≡ (before.received_30 + (2 ^ 64 - 1) * length (gotten before.id gs)) % 2 ^ 64
    pub donated_total_30 :
        after.donated_isk_30 ≡ take_from before.donated_isk_30 (given before.id gs)
    pub received_total_30 :
        after.received_isk_30 ≡ take_from before.received_isk_30 (gotten before.id gs)
    pub same_rest : after ≡ record before {
      donated_30 = after.donated_30;
      received_30 = after.received_30;
      donated_isk_30 = after.donated_isk_30;
      received_isk_30 = after.received_isk_30;
    }

  remove_from_row-HasCounters :
      (d : Donation F) (c : CharacterRow F) → HasCounters c → HasCounters (remove_from_row d c)
  unfolding remove_from_row dec64
  remove_from_row-HasCounters d c h = ground arith

  IsRemoved-cons :
      (d : Donation F) (gs : List (Gift F)) (c after : CharacterRow F)
      → HasCounters c
      → IsRemoved gs (remove_from_row d c) after
      → IsRemoved (gift_of_donation d ∷ gs) c after
  unfolding remove_from_row dec64
  IsRemoved-cons d gs c after h e = ground arith

  remove_all-IsRemoved :
      (ds : List (Donation F)) (c : CharacterRow F)
      → HasCounters c
      → IsRemoved (map gift_of_donation ds) c (remove_all ds c)
  unfolding remove_all
  remove_all-IsRemoved [] c h = ground arith
  remove_all-IsRemoved (d ∷ ds) c h =
      IsRemoved-cons d _ c _ h
        (remove_all-IsRemoved ds (remove_from_row d c) (remove_from_row-HasCounters d c h))

  -- Some of the gifts are worth no more than all of them.
  AreWorth-keep :
      (p : Gift F → Bool) (gs : List (Gift F)) (n : ℕ)
      → AreWorth gs n
      → (k : ℕ) × (k ≤ n) × (AreWorth (keep p gs) k)
  AreWorth-keep p [] n h = (0, omega arith, refl)
  AreWorth-keep p (g ∷ gs) n (m, k, worth, rest, sum) =
      let (j, le, kept) = AreWorth-keep p gs k rest in
      let more : m + j ≤ n = omega arith in
      let less : j ≤ n = omega arith in
      elim (Bool-cases (p g)) [
        | inl holds ↦ rw holds (m + j, more, (m, j, worth, kept, refl))
        | inr fails ↦ rw fails (j, less, kept)
      ]

  module _ (exact : KeepsWhole f) where
    total_from-whole :
        (gs : List (Gift F)) (x n : ℕ)
        → AreWorth gs n
        → x + n ≤ 2 ^ 53
        → total_from (whole x) gs ≡ whole (x + n)
    total_from-whole [] x n h b = ground arith
    total_from-whole (g ∷ gs) x n (m, k, worth, rest, sum) b =
        let entered : add (whole x) g.worth ≡ whole (x + m) =
          ap (add (whole x)) worth ∙ exact.add_whole x m (omega arith) in
        let same : x + m + k ≡ x + n = omega arith in
        ap (λ y. total_from y gs) entered
        ∙ total_from-whole gs (x + m) k rest (omega arith)
        ∙ ap whole same

    take_from-whole :
        (gs : List (Gift F)) (y n : ℕ)
        → AreWorth gs n
        → y + n ≤ 2 ^ 53
        → take_from (whole (y + n)) gs ≡ whole y
    take_from-whole [] y n h b = ground arith
    take_from-whole (g ∷ gs) y n (m, k, worth, rest, sum) b =
        let same : y + n ≡ y + k + m = omega arith in
        let taken : sub (whole (y + n)) g.worth ≡ whole (y + k) =
          ap (sub (whole (y + n))) worth
          ∙ ap (λ z. sub (whole z) (whole m)) same
          ∙ exact.sub_whole (y + k) m (omega arith) in
        ap (λ z. take_from z gs) taken ∙ take_from-whole gs y k rest (omega arith)

    -- Taking out again some of the gifts that were entered.
    take_from-total_from :
        (p : Gift F → Bool) (gs : List (Gift F)) (x : F) (y n : ℕ)
        → AreWorth gs n
        → x ≡ whole y
        → y + n ≤ 2 ^ 53
        → take_from (total_from x (keep p gs)) (keep p gs) ≡ x
    take_from-total_from p gs x y n h start b =
        let (k, le, kept) = AreWorth-keep p gs n h in
        ap (λ z. take_from (total_from z (keep p gs)) (keep p gs)) start
        ∙ ap (λ z. take_from z (keep p gs)) (total_from-whole (keep p gs) y k kept (omega arith))
        ∙ take_from-whole (keep p gs) y k kept (omega arith)
        ∙ sym start

    -- Taking out what was entered.
    IsRemoved-IsEntered :
        (gs : List (Gift F)) (c a z : CharacterRow F) (x y n : ℕ)
        → HasCounters c
        → IsEntered gs c a
        → IsRemoved gs a z
        → AreWorth gs n
        → c.donated_isk_30 ≡ whole x
        → c.received_isk_30 ≡ whole y
        → x + n ≤ 2 ^ 53
        → y + n ≤ 2 ^ 53
        → (z.donated_30 ≡ c.donated_30)
          × (z.received_30 ≡ c.received_30)
          × (z.donated_isk_30 ≡ c.donated_isk_30)
          × (z.received_isk_30 ≡ c.received_isk_30)
    IsRemoved-IsEntered gs c a z x y n h e r worth donated received small_x small_y = (
      omega (arith, rw e.same_id at r.donated_count_30),
      omega (arith, rw e.same_id at r.received_count_30),
      (rw (e.same_id, e.donated_total_30) at r.donated_total_30)
          ∙ take_from-total_from (λ g. c.id == g.from) gs c.donated_isk_30 x n worth donated
              small_x,
      (rw (e.same_id, e.received_total_30) at r.received_total_30)
          ∙ take_from-total_from (λ g. not (c.id == g.from) && c.id == g.to) gs c.received_isk_30 y
              n worth received small_y,
    )

    IsEntered-HasCounters :
        (gs : List (Gift F)) (c a : CharacterRow F) → IsEntered gs c a → HasCounters a
    IsEntered-HasCounters gs c a e = omega arith

    -- Entering a batch of donations into a row and later taking the same batch out brings all four
    -- 30-day totals back to where they were, and leaves the lifetime totals and time stamps of the
    -- entered row as they are. The counters are int64 bit patterns. The amounts and the two 30-day
    -- sums of the row are whole ISK, each sum with the batch is at most 2 ^ 53, and additions and
    -- subtractions in that range are not rounded.
    pub remove_all-add_all :
        (ds : List (Donation F)) (c : CharacterRow F) (x y n : ℕ)
        → HasCounters c
        → AreWorth (map gift_of_donation ds) n
        → c.donated_isk_30 ≡ whole x
        → c.received_isk_30 ≡ whole y
        → x + n ≤ 2 ^ 53
        → y + n ≤ 2 ^ 53
        → remove_all ds (add_all ds c) ≡ record (add_all ds c) {
          donated_30 = c.donated_30;
          received_30 = c.received_30;
          donated_isk_30 = c.donated_isk_30;
          received_isk_30 = c.received_isk_30;
        }
    remove_all-add_all ds c x y n h worth donated received small_x small_y =
        let e = add_all-IsEntered ds c h in
        let a = add_all ds c in
        let r = remove_all-IsRemoved ds a (IsEntered-HasCounters _ c a e) in
        let same = IsRemoved-IsEntered _ c a _ x y n h e r worth donated received small_x small_y in
        r.same_rest ∙ ground (arith, same)
