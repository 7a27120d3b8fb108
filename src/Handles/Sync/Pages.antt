-- ===== src/Handles/Sync/Pages.antt =====
-- The walk over the pages of the node, against the history that they are pages of.
use nim_connect.Base.{
  ℕ, zero, suc, ◌<◌, ◌≤◌, ◌≡◌, refl, ◌⊎◌, inl, inr, Bool, true, false, Option, none, some, List, [],
  ◌∷◌, ◌++◌, Text, text_eq, text_eq_iff, length, take, drop, if◌then◌else◌, count, ltb, arith,
  Bool-cases,
}
use nim_connect.Chain.{RpcTx}
use nim_connect.Handles.Sync.{TxHistory, last_cursor, prepend, all_pages}

abbrev has_hash : Text → RpcTx → Bool
has_hash h tx = text_eq tx.hash h

abbrev AreUnique : List RpcTx → Type 0
AreUnique txs = (h : Text) → count (has_hash h) txs ≤ 1

-- The transactions of a history that follow a cursor.
abbrev pub rest_after : Option Text → List RpcTx → List RpcTx
rest_after none txs = txs
rest_after (some h) [] = []
rest_after (some h) (t ∷ ts) = if text_eq t.hash h then ts else rest_after (some h) ts

-- The node has this history, with hashes that differ, and answers a cursor with an error or with the
-- transactions that follow it, as many as a page has.
pub record Serves (page_size : ℕ) (txs : List RpcTx) (page : Option Text → Option (List RpcTx))
    : Type 0 where
  pub unique : (h : Text) → count (has_hash h) txs ≤ 1
  pub answers :
      (c : Option Text) → (page c ≡ none) ⊎ (page c ≡ some (take page_size (rest_after c txs)))

take-drop : (n : ℕ) (ts : List RpcTx) → take n ts ++ drop n ts ≡ ts
take-drop zero ts = refl
take-drop (suc n) [] = refl
take-drop (suc n) (t ∷ ts) = rw (take-drop n ts) refl

take_short : (n : ℕ) (ts : List RpcTx) → ltb (length (take n ts)) n ≡ true → take n ts ≡ ts
take_short zero ts h = let no : false ≡ true = ground (arith, h) in cc no
take_short (suc n) [] h = refl
take_short (suc n) (t ∷ ts) h = rw (take_short n ts (ground (arith, h))) refl

count-rest_after :
    (p : RpcTx → Bool) (c : Option Text) (txs : List RpcTx)
    → count p (rest_after c txs) ≤ count p txs
unfolding count
count-rest_after p none txs = ground arith
count-rest_after p (some h) [] = ground arith
count-rest_after p (some h) (t ∷ ts) = ground (arith, count-rest_after p (some h) ts)

-- The last transaction of a full page is one of the history, and its hash is the cursor of the rest.
full_page :
    (m : ℕ) (ts : List RpcTx)
    → AreUnique ts
    → ltb (length (take (suc m) ts)) (suc m) ≡ false
    → (h : Text) × (last_cursor (take (suc m) ts) ≡ some h)
      × (0 < count (has_hash h) ts)
      × (rest_after (some h) ts ≡ drop (suc m) ts)
unfolding count
full_page m [] unique full = let no : true ≡ false = ground (arith, full) in cc no
full_page zero (t ∷ ts) unique full = (
  t.hash,
  refl,
  ground (arith, text_eq_iff t.hash t.hash),
  ground (arith, text_eq_iff t.hash t.hash),
)
full_page (suc m) (t ∷ []) unique full = let no : true ≡ false = ground (arith, full) in cc no
full_page (suc m) (t ∷ u ∷ us) unique full =
    let (h, last, there, rest) =
      full_page m (u ∷ us) (λ g. ground (arith, unique g)) (ground (arith, full)) in
    let other : text_eq t.hash h ≡ false = ground (arith, unique h, there) in
    (h, last, ground (arith, there), rw other rest)

-- What follows a hash in a rest follows it in the whole.
rest_after_rest :
    (c : Option Text) (h : Text) (txs : List RpcTx)
    → AreUnique txs
    → 0 < count (has_hash h) (rest_after c txs)
    → rest_after (some h) txs ≡ rest_after (some h) (rest_after c txs)
unfolding count
rest_after_rest none h txs unique there = refl
rest_after_rest (some g) h [] unique there = refl
rest_after_rest (some g) h (t ∷ ts) unique there = elim (Bool-cases (text_eq t.hash g)) [
  | inl e ↦
      let there' : 0 < count (has_hash h) ts = rw e at there in
      let other : text_eq t.hash h ≡ false = ground (arith, unique h, there') in rw (e, other) refl
  | inr e ↦
      let there' : 0 < count (has_hash h) (rest_after (some g) ts) = rw e at there in
      let other : text_eq t.hash h ≡ false =
        ground (arith, unique h, there', count-rest_after (has_hash h) (some g) ts) in
      rw (e, other) (rest_after_rest (some g) h ts (λ x. ground (arith, unique x)) there')
]

prepended :
    (txs : List RpcTx) (o : Option TxHistory) (h : TxHistory)
    → prepend txs o ≡ some h
    → (h' : TxHistory) × (o ≡ some h') × (h.txs ≡ txs ++ h'.txs) × (h.complete ≡ h'.complete)
prepended txs none h e = cc
prepended txs (some h') h e = (h', refl, ground (arith, e), ground (arith, e))

-- A walk that ends at a short page has read all that follows its cursor.
pub all_pages_whole :
    (m pages : ℕ) (txs : List RpcTx) (page : Option Text → Option (List RpcTx)) (c : Option Text)
    (h : TxHistory)
    → Serves (suc m) txs page
    → all_pages page (suc m) pages c ≡ some h
    → h.complete ≡ true
    → h.txs ≡ rest_after c txs
unfolding all_pages
all_pages_whole m zero txs page c h s walked whole =
    let no : false ≡ true = ground (arith, walked, whole) in cc no
all_pages_whole m (suc pages) txs page c h s walked whole = elim (s.answers c) [
  | inl e ↦ cc (rw (all_pages, e) at walked)
  | inr e ↦
      let ts = rest_after c txs in
      let walked' = rw (all_pages, e) at walked in
      elim (Bool-cases (ltb (length (take (suc m) ts)) (suc m))) [
        | inl short ↦
            let is : h.txs ≡ take (suc m) ts = ground (arith, walked', short) in
            rw (is, take_short (suc m) ts short) refl
        | inr full ↦
            let unique : AreUnique ts =
              λ g. ground (arith, s.unique g, count-rest_after (has_hash g) c txs) in
            let (g, last, there, rest) = full_page m ts unique full in
            let walked'' = rw (full, last) at walked' in
            let (h', on, is, same) =
              prepended (take (suc m) ts) (all_pages page (suc m) pages (some g)) h walked'' in
            let after =
              all_pages_whole m pages txs page (some g) h' s on (ground (arith, same, whole)) in
            rw (is, after, rest_after_rest c g txs s.unique there, rest) (take-drop (suc m) ts)
      ]
]
