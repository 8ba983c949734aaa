-- ===== src/Panel/Sort/Listing.antt =====
-- `sort_compare_fn` of src/panel.c is an order.
use gnu_gnuit.Prelude.{
  ℕ, ◌<◌, ◌≡◌, ◌≢◌, refl, sym, ap, ap₂, ◌∙◌, Bool-cases, inl, inr, Option, none, some, List, [],
  ◌∷◌, ◌==◌, if◌then◌else◌, arith,
}
use gnu_gnuit.Panel.Sort.{
  Sign, less, same, more, SortMethod, SortEntry, sort_by_name, sort_by_extension, sort_by_size,
  sort_by_date, sort_by_mode, sort_by_owner_id, sort_by_group_id, sort_by_owner_name,
  sort_by_group_name, strcmp, int_difference, extension, by_extension, by_method, sort_compare_fn,
}
use gnu_gnuit.Panel.Sort.Orders.{
  IsOrder, and_then, by_number, by_number-IsOrder, strcmp-IsOrder, by_option, by_option-IsOrder,
  by_flag, by_flag-IsOrder, same-IsOrder, key-IsOrder, and_then-IsOrder, flip,
}

-- The order of the sort method's field.
abbrev pub by_key : SortMethod → SortEntry → SortEntry → Sign
by_key sort_by_name a b = same
by_key sort_by_extension a b = by_option (extension a.name) (extension b.name)
by_key sort_by_size a b = by_number a.size b.size
by_key sort_by_date a b = by_number a.mtime b.mtime
by_key sort_by_mode a b = by_number a.mode b.mode
by_key sort_by_owner_id a b = by_number a.uid b.uid
by_key sort_by_group_id a b = by_number a.gid b.gid
by_key sort_by_owner_name a b = strcmp a.owner b.owner
by_key sort_by_group_name a b = strcmp a.group b.group

-- Directories first, then the field, then the name.
abbrev pub listing_order : SortMethod → SortEntry → SortEntry → Sign
listing_order method a b =
    and_then (by_flag a.is_dir b.is_dir) (and_then (by_key method a b) (strcmp a.name b.name))

-- Times, modes and ids whose difference is an int; names that stand for one id each.
abbrev pub Comparable : SortMethod → SortEntry → SortEntry → Type 0
Comparable sort_by_date a b = (a.mtime < 2147483648) × (b.mtime < 2147483648)
Comparable sort_by_mode a b = (a.mode < 2147483648) × (b.mode < 2147483648)
Comparable sort_by_owner_id a b = (a.uid < 2147483648) × (b.uid < 2147483648)
Comparable sort_by_group_id a b = (a.gid < 2147483648) × (b.gid < 2147483648)
Comparable sort_by_owner_name a b =
    (a.uid ≡ b.uid → a.owner ≡ b.owner) × (a.owner ≡ b.owner → a.uid ≡ b.uid)
Comparable sort_by_group_name a b =
    (a.gid ≡ b.gid → a.group ≡ b.group) × (a.group ≡ b.group → a.gid ≡ b.gid)
Comparable method a b = Unit

int_difference_lem :
    (m n : ℕ) → m < 2147483648 → n < 2147483648 → int_difference m n ≡ by_number m n
unfolding int_difference
int_difference_lem m n p q = ground arith

strcmp_refl : (a : List ℕ) → strcmp a a ≡ same
unfolding strcmp
strcmp_refl [] = refl
strcmp_refl (c ∷ a) = ground (arith, strcmp_refl a)

strcmp-same : (a b : List ℕ) → strcmp a b ≡ same → a ≡ b
unfolding strcmp
strcmp-same [] [] h = refl
strcmp-same [] (d ∷ b) h = absurd (ground (arith, h))
strcmp-same (c ∷ a) [] h = absurd (ground (arith, h))
strcmp-same (c ∷ a) (d ∷ b) h = ap₂ (◌∷◌) (ground (arith, h)) (strcmp-same a b (ground (arith, h)))

-- A field that is compared when it differs, then the name.
difference_lem :
    (m n : ℕ) (next : Sign)
    → m < 2147483648
    → n < 2147483648
    → (if m == n then next else int_difference m n) ≡ and_then (by_number m n) next
difference_lem m n next p q = ground (arith, int_difference_lem m n p q)

account_lem :
    (m n : ℕ) (a b : List ℕ) (next : Sign)
    → (m ≡ n → a ≡ b) × (a ≡ b → m ≡ n)
    → (if m == n then next else strcmp a b) ≡ and_then (strcmp a b) next
account_lem m n a b next (on, back) = elim (Bool-cases (m == n)) [
  | inl one ↦ rw one (
      sym (
        ap (λ s. and_then s next) (ap (strcmp a) (sym (on (ground (arith, one)))) ∙ strcmp_refl a)))
  | inr two ↦ rw two (told (strcmp a b) (λ e. ground (arith, two, back (strcmp-same a b e))))
]
  where
    told : (s : Sign) → s ≢ same → s ≡ and_then s next
    told less h = refl
    told same h = absurd (h refl)
    told more h = refl

extension_lem :
    (next : Sign) (a b : Option (List ℕ)) → by_extension next a b ≡ and_then (by_option a b) next
unfolding by_extension
extension_lem next none none = refl
extension_lem next (some a) none = refl
extension_lem next none (some b) = refl
extension_lem next (some a) (some b) = ground arith

by_method_lem :
    (method : SortMethod) (a b : SortEntry)
    → Comparable method a b
    → by_method method a b ≡ and_then (by_key method a b) (strcmp a.name b.name)
unfolding by_method
by_method_lem sort_by_name a b h = refl
by_method_lem sort_by_extension a b h =
    extension_lem (strcmp a.name b.name) (extension a.name) (extension b.name)
by_method_lem sort_by_size a b h = ground arith
by_method_lem sort_by_date a b (p, q) = difference_lem a.mtime b.mtime (strcmp a.name b.name) p q
by_method_lem sort_by_mode a b (p, q) = difference_lem a.mode b.mode (strcmp a.name b.name) p q
by_method_lem sort_by_owner_id a b (p, q) = difference_lem a.uid b.uid (strcmp a.name b.name) p q
by_method_lem sort_by_group_id a b (p, q) = difference_lem a.gid b.gid (strcmp a.name b.name) p q
by_method_lem sort_by_owner_name a b h =
    account_lem a.uid b.uid a.owner b.owner (strcmp a.name b.name) h
by_method_lem sort_by_group_name a b h =
    account_lem a.gid b.gid a.group b.group (strcmp a.name b.name) h

-- On two entries that the sort method can tell (times, modes and ids below 2 ^ 31, and owner or group
-- names that stand for one id each), `sort_compare_fn` gives the order of the listing: the directories
-- first, then the method's field, then the name.
pub sort_compare_fn-listing_order :
    (method : SortMethod) (a b : SortEntry)
    → Comparable method a b
    → sort_compare_fn method a b ≡ listing_order method a b
unfolding sort_compare_fn
sort_compare_fn-listing_order method a b h = ground (arith, by_method_lem method a b h)

by_key-IsOrder : (method : SortMethod) → IsOrder (by_key method)
by_key-IsOrder sort_by_name = same-IsOrder
by_key-IsOrder sort_by_extension =
    key-IsOrder by_option (λ (a : SortEntry). extension a.name) by_option-IsOrder
by_key-IsOrder sort_by_size = key-IsOrder by_number (λ (a : SortEntry). a.size) by_number-IsOrder
by_key-IsOrder sort_by_date = key-IsOrder by_number (λ (a : SortEntry). a.mtime) by_number-IsOrder
by_key-IsOrder sort_by_mode = key-IsOrder by_number (λ (a : SortEntry). a.mode) by_number-IsOrder
by_key-IsOrder sort_by_owner_id = key-IsOrder by_number (λ (a : SortEntry). a.uid) by_number-IsOrder
by_key-IsOrder sort_by_group_id = key-IsOrder by_number (λ (a : SortEntry). a.gid) by_number-IsOrder
by_key-IsOrder sort_by_owner_name = key-IsOrder strcmp (λ (a : SortEntry). a.owner) strcmp-IsOrder
by_key-IsOrder sort_by_group_name = key-IsOrder strcmp (λ (a : SortEntry). a.group) strcmp-IsOrder

listing_order-IsOrder : (method : SortMethod) → IsOrder (listing_order method)
listing_order-IsOrder method =
    and_then-IsOrder (λ a b. by_flag a.is_dir b.is_dir)
      (λ a b. and_then (by_key method a b) (strcmp a.name b.name))
      (key-IsOrder by_flag (λ (a : SortEntry). a.is_dir) by_flag-IsOrder)
      (and_then-IsOrder (by_key method) (λ a b. strcmp a.name b.name) (by_key-IsOrder method)
        (key-IsOrder strcmp (λ (a : SortEntry). a.name) strcmp-IsOrder))

Comparable-sym :
    (method : SortMethod) (a b : SortEntry) → Comparable method a b → Comparable method b a
Comparable-sym sort_by_date a b (p, q) = (q, p)
Comparable-sym sort_by_mode a b (p, q) = (q, p)
Comparable-sym sort_by_owner_id a b (p, q) = (q, p)
Comparable-sym sort_by_group_id a b (p, q) = (q, p)
Comparable-sym sort_by_owner_name a b (on, back) = (λ e. sym (on (sym e)), λ e. sym (back (sym e)))
Comparable-sym sort_by_group_name a b (on, back) = (λ e. sym (on (sym e)), λ e. sym (back (sym e)))
Comparable-sym sort_by_name a b h = tt
Comparable-sym sort_by_extension a b h = tt
Comparable-sym sort_by_size a b h = tt

-- Of three entries that the sort method can tell, where the first compares less than the second and the
-- second less than the third, the first compares less than the third, and the third more than the first.
pub sort_compare_fn-chain :
    (method : SortMethod) (a b c : SortEntry)
    → Comparable method a b
    → Comparable method b c
    → Comparable method a c
    → sort_compare_fn method a b ≡ less
    → sort_compare_fn method b c ≡ less
    → (sort_compare_fn method a c ≡ less) × (sort_compare_fn method c a ≡ more)
sort_compare_fn-chain method a b c h k l p q =
    let order = listing_order-IsOrder method in
    let first =
      order.chain a b c (sym (sort_compare_fn-listing_order method a b h) ∙ p)
        (sym (sort_compare_fn-listing_order method b c k) ∙ q) in
    (
      sort_compare_fn-listing_order method a c l ∙ first,
      sort_compare_fn-listing_order method c a (Comparable-sym method a c l)
          ∙ order.flips a c
          ∙ ap flip first,
    )
