-- ===== src/Link/Trace.antt =====
-- The times of the trace: how the link goes through its schedule.
use octopus_mahimahi.Common.{
  ℕ, zero, suc, ◌+◌, ◌-◌, ◌*◌, ◌%◌, ◌^◌, ◌≤◌, ◌<◌, ◌≡◌, inl, inr, refl, true, false, List, [], ◌∷◌,
  arith, ok, length, get_or, last_or, ◌==◌, if◌then◌else◌, Bool-cases, ltb, ltb→lt, ◌∙◌,
}
use native.Mathlib.Nat.{mod-eq_of_lt, mod_self}
use octopus_mahimahi.Link.State.{LinkQueue, no_time, time_at, back, size_of, next_delivery_time}
use octopus_mahimahi.Link.Held.{Place, place}

-- The times do not fall, and start at `lo` or later.
abbrev pub Rising : ℕ → List ℕ → Type 0
Rising lo [] = Unit {0}
Rising lo (t ∷ ts) = (lo ≤ t) × Rising t ts

pub Rising-last : (lo : ℕ) (ts : List ℕ) → Rising lo ts → lo ≤ last_or lo ts
Rising-last lo [] r = omega arith
Rising-last lo (t ∷ ts) r = omega (arith, Rising-last t ts r.1)

pub get_or-le-last :
    (lo i : ℕ) (ts : List ℕ) → Rising lo ts → i < length ts → get_or ts i 0 ≤ last_or lo ts
get_or-le-last lo i [] r h = absurd (omega arith)
get_or-le-last lo zero (t ∷ ts) r h = Rising-last t ts r.1
get_or-le-last lo (suc i) (t ∷ ts) r h = get_or-le-last t i ts r.1 (omega arith)

get_or-le-next :
    (lo i : ℕ) (ts : List ℕ)
    → Rising lo ts
    → suc i < length ts
    → get_or ts i 0 ≤ get_or ts (suc i) 0
get_or-le-next lo i [] r h = absurd (omega arith)
get_or-le-next lo i (t ∷ []) r h = absurd (omega arith)
get_or-le-next lo zero (t ∷ u ∷ ts) r h = r.1.0
get_or-le-next lo (suc i) (t ∷ u ∷ ts) r h = get_or-le-next t i (u ∷ ts) r.1 (omega arith)

time_at-get_or : (ts : List ℕ) (i : ℕ) → i < length ts → time_at ts i ≡ ok (get_or ts i 0)
unfolding time_at
time_at-get_or [] i h = absurd (omega arith)
time_at-get_or (t ∷ ts) zero h = refl
time_at-get_or (t ∷ ts) (suc i) h = time_at-get_or ts i (omega arith)

pub back-last_or : (ts : List ℕ) → 0 < length ts → back ts ≡ ok (last_or 0 ts)
unfolding back
back-last_or [] h = absurd (omega arith)
back-last_or (t ∷ ts) h = refl

pub size_of-mod : (ts : List ℕ) (i : ℕ) → 0 < length ts → size_of ts i ≡ ok (i % length ts)
unfolding size_of
size_of-mod [] i h = absurd (omega arith)
size_of-mod (t ∷ ts) i h = refl

abbrev pub last : Place → ℕ
last p = last_or 0 p.schedule

-- A place in a trace that the constructor of the link accepts, before the clock overflows.
pub record IsTimed (p : Place) : Type 0 where
  pub rising : Rising 0 p.schedule
  pub lasting : 0 < last p
  pub short : length p.schedule < 2 ^ 32
  pub inside : p.next_delivery < length p.schedule
  pub room : p.base_timestamp + last p < 2 ^ 64

-- The time of the next opportunity.
unfoldable pub next_time : Place → ℕ
next_time p = if p.finished then no_time else get_or p.schedule p.next_delivery 0 + p.base_timestamp

pub next_delivery_time-next_time :
    {Q : Type 0} (q : LinkQueue Q)
    → IsTimed (place q)
    → next_delivery_time q ≡ ok (next_time (place q))
unfolding next_delivery_time next_time
next_delivery_time-next_time q v = ground (
  arith,
  time_at-get_or q.schedule q.next_delivery,
  get_or-le-last 0 q.next_delivery q.schedule v.rising v.inside,
)

-- The place after an opportunity.
unfoldable pub advance : Place → Place
advance p =
    let next = (p.next_delivery + 1) % length p.schedule in
    if next == 0
    then (if p.repeat
        then record p { next_delivery = next; base_timestamp = p.base_timestamp + last p }
        else record p { next_delivery = next; finished = true })
    else record p { next_delivery = next }

-- The opportunities left until `now`, at most.
unfoldable pub remaining : ℕ → Place → ℕ
remaining now p =
    if p.finished then 0 else (now + 1 - p.base_timestamp) * length p.schedule - p.next_delivery

-- What an opportunity that is due does: the time does not fall back, and fewer are left.
pub record Advances (now : ℕ) (p p' : Place) : Type 0 where
  pub timed : IsTimed p'
  pub later : next_time p ≤ next_time p'
  pub fewer : remaining now p' < remaining now p
  pub same_schedule : p'.schedule ≡ p.schedule

mul_step : (x y n : ℕ) → x < y → x * n + n ≤ y * n
mul_step x y n h = grind arith

mul_le : (x y n : ℕ) → x ≤ y → x * n ≤ y * n
mul_le x y n h = grind arith

module _ (now : ℕ) (p : Place) (v : IsTimed p) (due : next_time p ≤ now)
    (bound : now + 2 * last p < 2 ^ 64) where
  not_finished : p.finished ≡ false
  unfolding next_time
  not_finished = ground (arith, v.lasting)

  base_due : p.base_timestamp ≤ now
  unfolding next_time
  base_due = ground (arith, not_finished)

  advance_inner :
      p.next_delivery + 1 < length p.schedule
      → advance p ≡ record p { next_delivery = suc p.next_delivery }
  unfolding advance
  advance_inner h =
      let e : (p.next_delivery + 1) % length p.schedule ≡ suc p.next_delivery =
        mod-eq_of_lt h ∙ (omega arith) in
      ground (arith, e)

  advance_repeat :
      p.next_delivery + 1 ≡ length p.schedule
      → p.repeat ≡ true
      → advance p ≡ record p { next_delivery = 0; base_timestamp = p.base_timestamp + last p }
  unfolding advance
  advance_repeat h r =
      let e : (p.next_delivery + 1) % length p.schedule ≡ 0 = rw h (mod_self _) in ground (arith, e)

  advance_stop :
      p.next_delivery + 1 ≡ length p.schedule
      → p.repeat ≡ false
      → advance p ≡ record p { next_delivery = 0; finished = true }
  unfolding advance
  advance_stop h r =
      let e : (p.next_delivery + 1) % length p.schedule ≡ 0 = rw h (mod_self _) in ground (arith, e)

  -- An opportunity is left, since one is due.
  some_left : p.next_delivery < (now + 1 - p.base_timestamp) * length p.schedule
  some_left = grind (arith, base_due, v.inside)

  Advances-inner :
      p.next_delivery + 1 < length p.schedule
      → Advances now p (record p { next_delivery = suc p.next_delivery })
  unfolding next_time remaining
  Advances-inner h = record {
    timed = record {
      rising = v.rising;
      lasting = v.lasting;
      short = v.short;
      inside = omega arith;
      room = v.room;
    };
    later = ground (arith, get_or-le-next 0 p.next_delivery p.schedule v.rising (omega arith));
    fewer = ground (arith, not_finished, some_left);
    same_schedule = refl;
  }

  Advances-repeat :
      p.next_delivery + 1 ≡ length p.schedule
      → Advances now p (record p { next_delivery = 0; base_timestamp = p.base_timestamp + last p })
  unfolding next_time remaining
  Advances-repeat h = record {
    timed = record {
      rising = v.rising;
      lasting = v.lasting;
      short = v.short;
      inside = omega (arith, v.inside);
      room = omega (arith, base_due);
    };
    later = ground (arith, get_or-le-last 0 p.next_delivery p.schedule v.rising v.inside);
    fewer = ground (
      arith,
      not_finished,
      mul_step (now + 1 - (p.base_timestamp + last p)) (now + 1 - p.base_timestamp)
          (length p.schedule) (omega (arith, base_due, v.lasting)),
    );
    same_schedule = refl;
  }

  Advances-stop :
      p.next_delivery + 1 ≡ length p.schedule
      → Advances now p (record p { next_delivery = 0; finished = true })
  unfolding next_time remaining
  Advances-stop h = record {
    timed = record {
      rising = v.rising;
      lasting = v.lasting;
      short = v.short;
      inside = omega (arith, v.inside);
      room = v.room;
    };
    later = ground (arith, due, bound);
    fewer = ground (arith, not_finished, some_left);
    same_schedule = refl;
  }

  pub advance-Advances : Advances now p (advance p)
  advance-Advances = elim (Bool-cases (ltb (p.next_delivery + 1) (length p.schedule))) [
    | inl h ↦ let l = ltb→lt _ _ h in rw (advance_inner l) (Advances-inner l)
    | inr h ↦
        let l : p.next_delivery + 1 ≡ length p.schedule = ground (arith, v.inside) in
        elim (Bool-cases p.repeat) [
          | inl r ↦ rw (advance_repeat l r) (Advances-repeat l)
          | inr r ↦ rw (advance_stop l r) (Advances-stop l)
        ]
  ]

pub remaining-le : (now : ℕ) (p : Place) → remaining now p ≤ (now + 1) * length p.schedule
unfolding remaining
remaining-le now p =
    ground (arith, mul_le (now + 1 - p.base_timestamp) (now + 1) (length p.schedule) (omega arith))

pub next_time_bound : (p : Place) → IsTimed p → next_time p < 2 ^ 64
unfolding next_time
next_time_bound p v =
    ground (arith, get_or-le-last 0 p.next_delivery p.schedule v.rising v.inside, v.room)
