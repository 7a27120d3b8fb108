-- ===== src/Friends/Pairs.antt =====
-- The rows of two people, whichever of them asked.
use nim_connect.Base.{
  ◌≡◌, refl, true, Option, none, some, List, [], ◌∷◌, Text, text_eq_iff, arith, Bool-cases, inl,
  inr, ◌⊎◌,
}
use nim_connect.Base.Rows.{In}
use nim_connect.Friends.{Friendship, is_pair, is_sooner, sooner, find_pair}

pub is_pair_comm : (a b : Text) (f : Friendship) → is_pair a b f ≡ is_pair b a f
is_pair_comm a b f = ground arith

-- The store finds the same row for two people in either order.
pub find_pair_comm : (a b : Text) (fs : List Friendship) → find_pair a b fs ≡ find_pair b a fs
unfolding find_pair
find_pair_comm a b [] = refl
find_pair_comm a b (f ∷ fs) = rw (is_pair_comm a b f, find_pair_comm a b fs) refl

sooner_cases : (f : Friendship) (o : Option Friendship) → (sooner f o ≡ some f) ⊎ (sooner f o ≡ o)
sooner_cases f none = inl refl
sooner_cases f (some g) = elim (Bool-cases (is_sooner g f)) [
  | inl e ↦ inr (rw e refl)
  | inr e ↦ inl (rw e refl)
]

-- The row that is found is one of the pair's.
pub find_pair_holds :
    (a b : Text) (fs : List Friendship) (g : Friendship)
    → find_pair a b fs ≡ some g
    → In g fs × (is_pair a b g ≡ true)
unfolding find_pair
find_pair_holds a b [] g h = cc
find_pair_holds a b (f ∷ fs) g h = elim (Bool-cases (is_pair a b f)) [
  | inr e ↦ let (m, p) = find_pair_holds a b fs g (rw e at h) in (inr m, p)
  | inl e ↦ elim (sooner_cases f (find_pair a b fs)) [
    | inl s ↦ let same : g ≡ f = cc (h, e, s) in (inl same, rw same e)
    | inr s ↦ let (m, p) = find_pair_holds a b fs g (cc (h, e, s)) in (inr m, p)
  ]
]

-- A row of two people that is a row of two others is so because they are the same two.
pub same_pair :
    (a b c d : Text) (f g : Friendship)
    → is_pair a b f ≡ true
    → is_pair c d f ≡ true
    → is_pair a b g ≡ is_pair c d g
same_pair a b c d f g h k = ground (
  arith,
  text_eq_iff f.requester a,
  text_eq_iff f.recipient b,
  text_eq_iff f.requester b,
  text_eq_iff f.recipient a,
  text_eq_iff f.requester c,
  text_eq_iff f.recipient d,
  text_eq_iff f.requester d,
  text_eq_iff f.recipient c,
)
