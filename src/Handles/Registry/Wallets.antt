-- ===== src/Handles/Registry/Wallets.antt =====
-- The handle that an address is shown with.
use mathlib.Core.List.{Mem, mem-cons_self, mem-cons_of_mem}
use nim_connect.Base.{
  ◌≡◌, refl, Bool, true, false, none, some, List, [], ◌∷◌, Text, text_eq, arith, Bool-cases, ◌⊎◌,
  inl, inr, All,
}
use nim_connect.Address.{compact_address}
use nim_connect.Claims.{HandleClaim}
use nim_connect.Handles.Registry.{HandleRegistry, is_earlier, best_claim, resolve_address}

abbrev pub is_owner : Text → HandleClaim → Bool
is_owner compact c = text_eq (compact_address c.address) compact

-- The claim is at least as early as every claim of the address.
abbrev pub IsFirst : Text → HandleClaim → List HandleClaim → Type 0
IsFirst compact best cs = All (λ c. is_owner compact c ≡ true → is_earlier c best ≡ false) cs

earlier_irrefl : (a : HandleClaim) → is_earlier a a ≡ false
earlier_irrefl a = ground arith

earlier_asym : (a b : HandleClaim) → is_earlier a b ≡ true → is_earlier b a ≡ false
earlier_asym a b h = ground arith

not_earlier_trans :
    (a b c : HandleClaim) → is_earlier b a ≡ false → is_earlier c b ≡ false → is_earlier c a ≡ false
not_earlier_trans a b c h k = ground arith

-- The claim is in the list, and the address is its owner.
abbrev IsClaim : Text → List HandleClaim → HandleClaim → Type 0
IsClaim compact cs c = Mem c cs × (is_owner compact c ≡ true)

-- Where the loop ends that has found `best`.
abbrev Ends : Text → HandleClaim → List HandleClaim → Type 0
Ends compact best cs =
    (c : HandleClaim) × (best_claim compact (some best) cs ≡ some c)
    × (is_earlier best c ≡ false)
    × IsFirst compact c cs
    × ((c ≡ best) ⊎ IsClaim compact cs c)

later-IsClaim :
    (compact : Text) {x : HandleClaim} {cs : List HandleClaim} (c : HandleClaim)
    → IsClaim compact cs c
    → IsClaim compact (x ∷ cs) c
later-IsClaim compact c m = (mem-cons_of_mem _ m.0, m.1)

best_from : (compact : Text) (best : HandleClaim) (cs : List HandleClaim) → Ends compact best cs
unfolding best_claim
best_from compact best [] = (best, refl, earlier_irrefl best, tt, inl refl)
best_from compact best (x ∷ cs) = elim (Bool-cases (is_owner compact x)) [
  | inr o ↦
      let (c, found, after, first, from) = best_from compact best cs in
      (
        c,
        rw o found,
        after,
        ((λ e. cc (o, e)), first),
        elim from [ inl e ↦ inl e | inr m ↦ inr (later-IsClaim compact c m) ],
      )
  | inl o ↦ elim (Bool-cases (is_earlier x best)) [
    | inl e ↦
        let (c, found, after, first, from) = best_from compact x cs in
        (
          c,
          rw (o, e) found,
          not_earlier_trans c x best after (earlier_asym x best e),
          ((λ _. after), first),
          inr (elim from [
            | inl s ↦ (rw s mem-cons_self, rw s o)
            | inr m ↦ later-IsClaim compact c m
          ]),
        )
    | inr e ↦
        let (c, found, after, first, from) = best_from compact best cs in
        (
          c,
          rw (o, e) found,
          after,
          ((λ _. not_earlier_trans c best x after e), first),
          elim from [ inl s ↦ inl s | inr m ↦ inr (later-IsClaim compact c m) ],
        )
  ]
]

-- No claim of the address, or its first one.
abbrev Answer : Text → List HandleClaim → Type 0
Answer compact cs =
    ((best_claim compact none cs ≡ none) × All (λ c. is_owner compact c ≡ false) cs)
    ⊎ ((c : HandleClaim) × (best_claim compact none cs ≡ some c)
        × Mem c cs
        × (is_owner compact c ≡ true)
        × IsFirst compact c cs)

best-Answer : (compact : Text) (cs : List HandleClaim) → Answer compact cs
unfolding best_claim
best-Answer compact [] = inl (refl, tt)
best-Answer compact (x ∷ cs) = elim (Bool-cases (is_owner compact x)) [
  | inl o ↦
      let (c, found, after, first, from) = best_from compact x cs in
      let (mem, owner) : Mem c (x ∷ cs) × (is_owner compact c ≡ true) = elim from [
        | inl s ↦ (rw s mem-cons_self, rw s o)
        | inr m ↦ later-IsClaim compact c m
      ] in
      inr (c, rw o found, mem, owner, ((λ _. after), first))
  | inr o ↦ elim (best-Answer compact cs) [
    | inl (h, a) ↦ inl (rw o h, (o, a))
    | inr (c, h, mem, owner, first) ↦
        inr (c, rw o h, mem-cons_of_mem _ mem, owner, ((λ e. cc (o, e)), first))
  ]
]

-- `ResolveAddress` finds nothing only if no claim has the address; else it finds a claim of that
-- address, and none of its claims is earlier.
pub resolve_address-IsFirst :
    (address : Text) (r : HandleRegistry)
    → ((resolve_address address r ≡ none)
        × All (λ c. is_owner (compact_address address) c ≡ false) r.handles)
      ⊎ ((c : HandleClaim) × (resolve_address address r ≡ some c)
          × Mem c r.handles
          × (is_owner (compact_address address) c ≡ true)
          × IsFirst (compact_address address) c r.handles)
unfolding resolve_address
resolve_address-IsFirst address r = best-Answer (compact_address address) r.handles
