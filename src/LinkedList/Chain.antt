-- ===== src/LinkedList/Chain.antt =====
-- A list of src/list.c stands for the sequence of its nodes: adding puts a node in front, removing
-- takes it out wherever it is.
use bmsnode_firmware.Prelude.{
  ℕ, zero, suc, ◌<◌, ◌≡◌, refl, sym, ◌∙◌, ◌≢◌, inl, inr, Bool, true, false, ◌||◌, List, [], ◌∷◌,
  arith, ◌==◌, if◌then◌else◌, Bool-cases, length,
}
use mathlib.Core.Path.{subst}
use bmsnode_firmware.LinkedList.{Ptr, null, Links, update, list_add, remove_loop, list_remove}

abbrev pub has : Ptr → List Ptr → Bool
has a [] = false
has a (x ∷ xs) = (a == x) || has a xs

abbrev pub Distinct : List Ptr → Type 0
Distinct [] = Unit
Distinct (x ∷ xs) = (has x xs ≡ false) × Distinct xs

-- From the node `p` the pointers lead through the nodes `xs` to null.
abbrev pub Chain : Links → Ptr → List Ptr → Type 0
Chain h p [] = h p ≡ null
Chain h p (x ∷ xs) = (h p ≡ x) × (x ≢ null) × Chain h x xs

pub record IsList (h : Links) (head : Ptr) (xs : List Ptr) : Type 0 where
  pub chain : Chain h head xs
  pub distinct : Distinct (head ∷ xs)

abbrev pub erase : Ptr → List Ptr → List Ptr
erase a [] = []
erase a (x ∷ xs) = if x == a then xs else x ∷ erase a xs

-- The same nodes behind another one, where the pointers of the nodes are unchanged.
graft :
    (xs : List Ptr) {h g : Links} (p q : Ptr)
    → Chain h p xs
    → g q ≡ h p
    → ((a : Ptr) → has a xs ≡ true → g a ≡ h a)
    → Chain g q xs
graft [] p q c e same = e ∙ c
graft (x ∷ xs) {h} {g} p q c e same =
    (e ∙ c.0, c.1, graft xs x x c.2 (same x (ground arith)) (λ a i. same a (ground arith)))

has-erase : (xs : List Ptr) (a b : Ptr) → has a xs ≡ false → has a (erase b xs) ≡ false
has-erase [] a b h = refl
has-erase (x ∷ xs) a b h = ground (arith, has-erase xs a b)

Distinct-erase : (xs : List Ptr) (b : Ptr) → Distinct xs → Distinct (erase b xs)
Distinct-erase [] b d = d
Distinct-erase (x ∷ xs) b d = elim (Bool-cases (x == b)) [
  | inl e ↦ rw e d.1
  | inr e ↦ rw e (has-erase xs x b d.0, Distinct-erase xs b d.1)
]

-- An erased node is not in what is left.
pub erase-not_has : (xs : List Ptr) (a : Ptr) → Distinct xs → has a (erase a xs) ≡ false
erase-not_has [] a d = refl
erase-not_has (x ∷ xs) a d = ground (arith, erase-not_has xs a d.1)

-- `list_add` puts a node that is not in the list in front of it.
pub list_add-IsList :
    {h : Links} (head node : Ptr) (xs : List Ptr)
    → IsList h head xs
    → node ≢ null
    → has node (head ∷ xs) ≡ false
    → IsList (list_add h head node) head (node ∷ xs)
unfolding list_add
list_add-IsList {h} head node xs v ne new =
    let d = v.distinct in
    let apart : (node == head) ≡ false = ground arith in
    let out : has node xs ≡ false = ground arith in
    record {
      chain = (
        ground arith,
        ne,
        graft xs head node v.chain (ground arith) (λ a i. ground (arith, d.0)),
      );
      distinct = (ground arith, (out, d.1));
    }

-- What `list_remove` leaves of the pointers.
record Removed (h g : Links) (prev node : Ptr) (xs : List Ptr) : Type 0 where
  chain : Chain g prev (erase node xs)
  unlinked : has node xs ≡ true → g node ≡ null
  same : (a : Ptr) → has a (prev ∷ xs) ≡ false → g a ≡ h a

Removed-cons :
    {h g : Links} (prev cur node : Ptr) (xs : List Ptr)
    → h prev ≡ cur
    → cur ≢ null
    → (cur == node) ≡ false
    → has prev (cur ∷ xs) ≡ false
    → Removed h g cur node xs
    → Removed h g prev node (cur ∷ xs)
Removed-cons prev cur node xs e ne miss d r = record {
  chain = rw miss (r.same prev d ∙ e, ne, r.chain);
  unlinked = λ i. r.unlinked (ground arith);
  same = λ a o. r.same a (ground arith);
}

Removed-here :
    (h : Links) (prev node : Ptr) (xs : List Ptr)
    → node ≢ prev
    → Chain h node xs
    → has node xs ≡ false
    → has prev xs ≡ false
    → Removed h (update (update h prev (h node)) node null) prev node (node ∷ xs)
Removed-here h prev node xs ne rest out d =
    let self : (node == node) ≡ true = ground arith in
    record {
      chain = rw self (graft xs node prev rest (ground arith) (λ a i. ground arith));
      unlinked = λ i. rw self;
      same = λ a o. ground arith;
    }

remove_loop-Removed :
    (xs : List Ptr) (fuel : ℕ) (h : Links) (prev node : Ptr)
    → Chain h prev xs
    → Distinct (prev ∷ xs)
    → node ≢ prev
    → length xs < fuel
    → Removed h (remove_loop fuel h prev node) prev node xs
unfolding remove_loop
remove_loop-Removed xs zero h prev node c d ne f = absurd (omega arith)
remove_loop-Removed [] (suc fuel) h prev node c d ne f =
    let stop : (h prev == null) ≡ true = ground arith in
    rw stop (record { chain = c; unlinked = λ i. cc; same = λ a o. refl })
remove_loop-Removed (cur ∷ xs) (suc fuel) h prev node c d ne f =
    let (e, nn, rest) = c in
    let go : (cur == null) ≡ false = ground arith in
    elim (Bool-cases (cur == node)) [
      | inl hit ↦
          let at : cur ≡ node = ground arith in
          rw (e, go, hit)
            (subst (λ k. Removed h (update (update h prev (h node)) node null) prev node (k ∷ xs))
              (sym at)
              (Removed-here h prev node xs ne (subst (λ k. Chain h k xs) at rest)
                (ground (arith, d.1.0)) (ground (arith, d.0))))
      | inr miss ↦
          rw (e, go, miss)
            (Removed-cons prev cur node xs e nn miss d.0
              (remove_loop-Removed xs fuel h cur node rest d.1 (ground arith) (omega arith)))
    ]

-- `list_remove`, with as much fuel as the list has nodes, takes the node out of the list wherever
-- it stands and clears its pointer; every pointer outside the list stays.
pub list_remove-IsList :
    {h : Links} (fuel : ℕ) (head node : Ptr) (xs : List Ptr)
    → IsList h head xs
    → node ≢ head
    → length xs < fuel
    → let g = list_remove fuel h head node in
      IsList g head (erase node xs)
      × (has node xs ≡ true → g node ≡ null)
      × ((a : Ptr) → has a (head ∷ xs) ≡ false → g a ≡ h a)
unfolding list_remove
list_remove-IsList {h} fuel head node xs v ne f =
    let r = remove_loop-Removed xs fuel h head node v.chain v.distinct ne f in
    (
      record {
        chain = r.chain;
        distinct = (has-erase xs head node v.distinct.0, Distinct-erase xs node v.distinct.1);
      },
      r.unlinked,
      r.same,
    )

remove_loop_fuel :
    (ys : List Ptr) (f g : ℕ) (h : Links) (prev node : Ptr)
    → Chain h prev ys
    → length ys < f
    → length ys < g
    → remove_loop f h prev node ≡ remove_loop g h prev node
unfolding remove_loop
remove_loop_fuel ys zero g h prev node c p q = absurd (omega arith)
remove_loop_fuel ys (suc f) zero h prev node c p q = absurd (omega arith)
remove_loop_fuel [] (suc f) (suc g) h prev node c p q =
    let end : (h prev == null) ≡ true = ground arith in rw end refl
remove_loop_fuel (y ∷ ys) (suc f) (suc g) h prev node (e, ne, rest) p q =
    let ih = remove_loop_fuel ys f g h y node rest (omega arith) (omega arith) in
    let go : (y == null) ≡ false = ground arith in
    elim (Bool-cases (y == node)) [
      | inl found ↦ rw (e, go, found) refl
      | inr other ↦ rw (e, go, other) ih
    ]

-- Fuel above the length of the list changes nothing: the loop ends before.
pub list_remove_fuel :
    (ys : List Ptr) (f g : ℕ) (h : Links) (head node : Ptr)
    → Chain h head ys
    → length ys < f
    → length ys < g
    → list_remove f h head node ≡ list_remove g h head node
unfolding list_remove
list_remove_fuel ys f g h head node c p q = remove_loop_fuel ys f g h head node c p q
