-- ===== src/Panel/Sort/Tests.antt =====
-- The theorems on the order of a panel's entries, applied to a directory and two files.
use gnu_gnuit.Prelude.{ℕ, ◌≡◌, Bool, false, [], ◌∷◌, arith}
use gnu_gnuit.Panel.Sort.{SortEntry, sort_by_date, sort_compare_fn}
use gnu_gnuit.Panel.Sort.Listing.{listing_order, sort_compare_fn-listing_order}

abbrev entry : Bool → ℕ → SortEntry
entry is_dir mtime = record {
  name = b'a' ∷ [];
  is_dir = is_dir;
  size = 0;
  mtime = mtime;
  mode = 0;
  uid = 0;
  gid = 0;
  owner = [];
  group = [];
}

sort_compare_fn-listing_order_example :
    sort_compare_fn sort_by_date (entry false 7) (entry false 9)
    ≡ listing_order sort_by_date (entry false 7) (entry false 9)
sort_compare_fn-listing_order_example =
    sort_compare_fn-listing_order sort_by_date (entry false 7) (entry false 9)
      (omega arith, omega arith)
