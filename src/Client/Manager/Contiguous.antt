-- ===== src/Client/Manager/Contiguous.antt =====
-- The numbers of the frames that the manager forwards (`handle_frame` of manager.rs).
use lumencast_rs.Prelude.{
  append_laws, ℕ, zero, suc, ◌+◌, ◌≤◌, ◌<◌, ◌≡◌, refl, sym, ap, ap₂, subst, ◌∙◌, inl, inr, Bool,
  true, false, List, [], ◌∷◌, ◌++◌, append_assoc, append-nil, Option, none, some, All, length,
  if-cases, arith,
}
use lumencast_rs.Protocol.Frames.{ServerFrame, pong, seq_of}
use lumencast_rs.Protocol.Sequence.{u64_mod}
use lumencast_rs.Protocol.Sequence.Laws.{count_up, observe_seq-step}
use lumencast_rs.Client.Manager.{Event, status, Dispatch, dispatch, on_observed, handle_frame}
use lumencast_rs.Client.Manager
use lumencast_rs.Client.Manager.Tracking.{handle_all, going}

-- The numbers of the frames that were forwarded.
abbrev number_of : Event → List ℕ
number_of (status s) = []
number_of (Event.snapshot f) = f.seq ∷ []
number_of (Event.delta f) = f.seq ∷ []
number_of (Event.scene_changed f) = f.seq ∷ []
number_of (Event.error f) = f.seq ∷ []

abbrev pub numbers : List Event → List ℕ
numbers [] = []
numbers (e ∷ es) = number_of e ++ numbers es

numbers-append : (xs ys : List Event) → numbers (xs ++ ys) ≡ numbers xs ++ numbers ys
numbers-append [] ys = refl
numbers-append (x ∷ xs) ys = ap (◌++◌ (number_of x)) (numbers-append xs ys) ∙ simp append_laws

abbrev is_scene_changed : ServerFrame → Bool
is_scene_changed (ServerFrame.scene_changed c) = true
is_scene_changed _ = false

count_up-append : (n k j : ℕ) → count_up n k ++ count_up (n + k) j ≡ count_up n (k + j)
unfolding count_up
count_up-append n zero j =
    ap₂ count_up (let e : n + 0 ≡ n = omega arith in e) (let e : j ≡ 0 + j = omega arith in e)
count_up-append n (suc k) j =
    let e : n + suc k ≡ (n + 1) + k = omega arith in
    let f : suc k + j ≡ suc (k + j) = omega arith in
    rw (e, f) (ap (◌∷◌ n) (count_up-append (n + 1) k j))

-- What was forwarded after the number `n` and the events `es`: the next numbers, up to the tracker's.
pub record Forwards (n : ℕ) (es : List Event) (d : Dispatch) : Type 0 where
  pub count : ℕ
  pub in_order : numbers d.events ≡ numbers es ++ count_up (n + 1) count
  pub seen : d.tracker.last ≡ n + count

-- One frame forwards one event at most.
abbrev ForwardsOne : ℕ → List Event → Dispatch → Type 0
ForwardsOne n es d = (x : Forwards n es d) × (x.count ≤ 1)

forwards_none :
    (n : ℕ) (es : List Event) (gap : Bool)
    → ForwardsOne n es (record { tracker = record { last = n }; events = es; gap = gap })
unfolding count_up
forwards_none n es gap = (
  record { count = 0; in_order = sym (append-nil (numbers es)); seen = omega arith },
  omega arith,
)

forwards_one :
    (n : ℕ) (es : List Event) (f : ServerFrame) (seq : ℕ)
    → seq_of f ≡ some seq
    → seq ≡ n + 1
    → is_scene_changed f ≡ false
    → ForwardsOne n es (dispatch f (record { last = seq }) es)
unfolding count_up
forwards_one n es f seq numbered next plain = go f numbered plain
  where
    one :
        (e : Event)
        → number_of e ≡ seq ∷ []
        → ForwardsOne n es
            (record { tracker = record { last = seq }; events = es ++ e ∷ []; gap = false })
    one e is = (
      record {
        count = 1;
        in_order =
            numbers-append es (e ∷ [])
            ∙ ap (◌++◌ (numbers es)) (append-nil (number_of e) ∙ is ∙ ap (λ m. m ∷ []) next);
        seen = next;
      },
      omega arith,
    )

    go :
        (g : ServerFrame)
        → seq_of g ≡ some seq
        → is_scene_changed g ≡ false
        → ForwardsOne n es (dispatch g (record { last = seq }) es)
    go (ServerFrame.snapshot s) h p = one (Event.snapshot s) (ap (λ m. m ∷ []) cc)
    go (ServerFrame.delta s) h p = one (Event.delta s) (ap (λ m. m ∷ []) cc)
    go (ServerFrame.scene_changed s) h p = absurd (cc)
    go (ServerFrame.error s) h p = one (Event.error s) (ap (λ m. m ∷ []) cc)
    go (pong s) h p = absurd (cc)

forwards_pong :
    (n : ℕ) (es : List Event) (f : ServerFrame)
    → seq_of f ≡ none
    → ForwardsOne n es (dispatch f (record { last = n }) es)
forwards_pong n es (pong p) h = forwards_none n es false
forwards_pong n es (ServerFrame.snapshot s) h = absurd (cc)
forwards_pong n es (ServerFrame.delta s) h = absurd (cc)
forwards_pong n es (ServerFrame.scene_changed s) h = absurd (cc)
forwards_pong n es (ServerFrame.error s) h = absurd (cc)

frame-Forwards :
    (n : ℕ) (f : ServerFrame) (es : List Event)
    → 0 < n
    → n + 1 < u64_mod
    → is_scene_changed f ≡ false
    → ForwardsOne n es (handle_frame f (record { last = n }) es)
unfolding handle_frame
frame-Forwards n f es pos small plain = go (seq_of f) refl
  where
    go :
        (o : Option ℕ)
        → seq_of f ≡ o
        → ForwardsOne n es (Manager.numbered f (record { last = n }) es o)
    go none h = forwards_pong n es f h
    go (some seq) h = elim (observe_seq-step (record { last = n }) seq pos small) [
      | inl (next, took) ↦
          subst (λ r. ForwardsOne n es (on_observed f es r)) (sym took)
            (forwards_one n es f seq h next plain)
      | inr (inl old) ↦
          subst (λ r. ForwardsOne n es (on_observed f es r)) (sym old) (forwards_none n es false)
      | inr (inr (e, gap)) ↦
          subst (λ r. ForwardsOne n es (on_observed f es r)) (sym gap) (forwards_none n es true)
    ]

Forwards-trans :
    (n : ℕ) (es : List Event) (d d' : Dispatch)
    → Forwards n es d
    → Forwards d.tracker.last d.events d'
    → Forwards n es d'
Forwards-trans n es d d' x y = record {
  count = x.count + y.count;
  in_order =
      y.in_order
      ∙ ap₂ ◌++◌ x.in_order (
          ap (λ m. count_up m y.count)
            (let e : d.tracker.last + 1 ≡ (n + 1) + x.count = omega (arith, x.seen) in e))
      ∙ append_assoc (numbers es) (count_up (n + 1) x.count) _
      ∙ ap (◌++◌ (numbers es)) (count_up-append (n + 1) x.count y.count);
  seen = omega (arith, x.seen, y.seen);
}

all-Forwards :
    (n : ℕ) (es : List Event) (fs : List ServerFrame) (d : Dispatch)
    → 0 < n
    → Forwards n es d
    → d.tracker.last + length fs < u64_mod
    → All (λ f. is_scene_changed f ≡ false) fs
    → Forwards n es (handle_all fs d)
unfolding handle_all
all-Forwards n es [] d pos x small plain = x
all-Forwards n es (f ∷ fs) d pos x small plain =
    let (y, few) =
      frame-Forwards d.tracker.last f d.events (omega (arith, x.seen)) (omega arith) plain.0 in
    if-cases (Forwards n es) d.gap _ _ (λ stopped. x)
      (λ going_on.
        all-Forwards n es fs (handle_frame f d.tracker d.events) pos (Forwards-trans n es d _ x y)
          (omega (arith, y.seen, few)) plain.1)

-- Once a client has seen a number, the numbers of the frames that it forwards are the next ones in
-- order, none missing and none twice, whatever frames arrive and in which order, without a change
-- of scene among them and as long as the numbers stay below 2^64; the tracker stands at the last of
-- them.
pub handle_all-contiguous :
    (n : ℕ) (fs : List ServerFrame)
    → 0 < n
    → n + length fs < u64_mod
    → All (λ f. is_scene_changed f ≡ false) fs
    → (count : ℕ) × (numbers (handle_all fs (going n [])).events ≡ count_up (n + 1) count)
      × ((handle_all fs (going n [])).tracker.last ≡ n + count)
handle_all-contiguous n fs pos small plain =
    let x = all-Forwards n [] fs (going n []) pos (forwards_none n [] false).0 small plain in
    (x.count, x.in_order, x.seen)
