-- ===== src/Prelude/Map/Merge.antt =====
-- Joining two maps key by key, the loop of every set and counter merge.
use mathlib.Core.Path.{◌≡◌, refl, ap}
use mathlib.Core.Option.{Option, none, some}
use mathlib.Core.List.{[], ◌∷◌}
use native.Mathlib.Omega.{arith}
use misty.Prelude.Order.{Ord, same_key}
use misty.Prelude.Tests.{if◌then◌else◌}
use misty.Prelude.Map.{Map, get, put, IsSorted, Above-trans, get-Above, get-put, put-IsSorted, ext}

module _ {κ} {V : Type κ} where
  abbrev pub join : (V → V → V) → Option V → Option V → Option V
  join f none y = y
  join f (some x) none = some x
  join f (some x) (some y) = some (f x y)

  pub join_comm :
      (f : V → V → V) → ((x y : V) → f x y ≡ f y x) → (x y : Option V) → join f x y ≡ join f y x
  join_comm f c none none = refl
  join_comm f c none (some y) = refl
  join_comm f c (some x) none = refl
  join_comm f c (some x) (some y) = ap some (c x y)

  pub join_assoc :
      (f : V → V → V)
      → ((x y z : V) → f (f x y) z ≡ f x (f y z))
      → (x y z : Option V) → join f (join f x y) z ≡ join f x (join f y z)
  join_assoc f c none y z = refl
  join_assoc f c (some x) none z = refl
  join_assoc f c (some x) (some y) none = refl
  join_assoc f c (some x) (some y) (some z) = ap some (c x y z)

  pub join_idem : (f : V → V → V) → ((x : V) → f x x ≡ x) → (x : Option V) → join f x x ≡ x
  join_idem f c none = refl
  join_idem f c (some x) = ap some (c x)

module _ {ℓ κ} {K : Type ℓ} {V : Type κ} ⦃o : Ord K⦄ where
  -- `for (k, incoming) in n { match m.get_mut(k) { Some(old) => join, None => insert } }`
  unfoldable pub upsert : (V → V → V) → K → V → Map K V → Map K V
  upsert f k v m = elim (get k m) [ none ↦ put k v m | some old ↦ put k (f old v) m ]

  unfoldable pub merge_with : (V → V → V) → Map K V → Map K V → Map K V
  merge_with f m [] = m
  merge_with f m ((k, v) ∷ n) = merge_with f (upsert f k v m) n

  upsert-IsSorted :
      (f : V → V → V) (k : K) (v : V) (m : Map K V) → IsSorted m → IsSorted (upsert f k v m)
  unfolding upsert
  upsert-IsSorted f k v m h =
      elim (get k m)
        as (λ r. IsSorted (elim r [ none ↦ put k v m | some old ↦ put k (f old v) m ])) [
          | none ↦ put-IsSorted k v m h
          | some old ↦ put-IsSorted k (f old v) m h
        ]

  pub merge_with-IsSorted :
      (f : V → V → V) (m n : Map K V) → IsSorted m → IsSorted (merge_with f m n)
  unfolding merge_with
  merge_with-IsSorted f m [] h = h
  merge_with-IsSorted f m ((k, v) ∷ n) h =
      merge_with-IsSorted f (upsert f k v m) n (upsert-IsSorted f k v m h)

  get-upsert :
      (f : V → V → V) (k j : K) (v : V) (m : Map K V)
      → get j (upsert f k v m) ≡ (if same_key k j then join f (get k m) (some v) else get j m)
  unfolding upsert
  get-upsert f k j v m =
      elim (get k m)
        as (λ r.
          get j (elim r [ none ↦ put k v m | some old ↦ put k (f old v) m ])
          ≡ (if same_key k j then join f r (some v) else get j m)) [
            | none ↦ get-put k j v m
            | some old ↦ get-put k j (f old v) m
          ]

  -- A merged map holds, at every key, the join of the two sides.
  pub get-merge_with :
      (f : V → V → V) (m n : Map K V) (j : K)
      → IsSorted n
      → get j (merge_with f m n) ≡ join f (get j m) (get j n)
  unfolding merge_with get
  get-merge_with f m [] j h = ground arith
  get-merge_with f m ((k, v) ∷ n) j h = ground (
    arith,
    get-merge_with f (upsert f k v m) n j h.1,
    get-upsert f k j v m,
    o.cmp_flip k j,
    o.eq_of_cmp k j,
    get-Above j n,
    Above-trans j k n,
  )

  module _ (f : V → V → V) where
    pub merge_with_comm :
        (m n : Map K V)
        → IsSorted m
        → IsSorted n
        → ((x y : V) → f x y ≡ f y x)
        → merge_with f m n ≡ merge_with f n m
    merge_with_comm m n p q c =
        ext (merge_with f m n) (merge_with f n m) (merge_with-IsSorted f m n p)
          (merge_with-IsSorted f n m q)
          λ k.
            rw (get-merge_with f m n k q, get-merge_with f n m k p)
              (join_comm f c (get k m) (get k n))

    pub merge_with_assoc :
        (m n l : Map K V)
        → IsSorted m
        → IsSorted n
        → IsSorted l
        → ((x y z : V) → f (f x y) z ≡ f x (f y z))
        → merge_with f (merge_with f m n) l ≡ merge_with f m (merge_with f n l)
    merge_with_assoc m n l p q r c =
        ext (merge_with f (merge_with f m n) l) (merge_with f m (merge_with f n l))
          (merge_with-IsSorted f (merge_with f m n) l (merge_with-IsSorted f m n p))
          (merge_with-IsSorted f m (merge_with f n l) p)
          λ k.
            rw
              (
                get-merge_with f (merge_with f m n) l k r,
                get-merge_with f m n k q,
                get-merge_with f m (merge_with f n l) k (merge_with-IsSorted f n l q),
                get-merge_with f n l k r,
              )
              (join_assoc f c (get k m) (get k n) (get k l))

    pub merge_with_idem : (m : Map K V) → IsSorted m → ((x : V) → f x x ≡ x) → merge_with f m m ≡ m
    merge_with_idem m p c =
        ext (merge_with f m m) m (merge_with-IsSorted f m m p) p
          λ k. rw (get-merge_with f m m k p) (join_idem f c (get k m))
