-- ===== src/State/Locate.antt =====
-- locateKeyIndex of internal/state/state.go.
use keypool_service.Base.{
  ℕ, zero, suc, ◌+◌, ◌<◌, ◌≡◌, refl, ap, ◌≢◌, ◌⊎◌, inl, inr, Bool, true, false, not, ◌&&◌, Option,
  none, some, List, [], ◌∷◌, arith, if◌then◌else◌, some_inj, get_elem?,
}
use keypool_service.Base.Int.{ℤ, pos, negsuc}
use keypool_service.Base.Text.{Str, eq_str, eq_str_iff, is_empty}
use keypool_service.Platform.{Platform}
use keypool_service.Store.Types.{Channel, get_keys}
use keypool_service.State.Types.{find_key, locate_at, locate_by_key, locate_key_index}

-- An index into the keys, counted from `i`, at which the first key equal to `key` stands.
pub record IsFirst (key : Str) (keys : List Str) (i j : ℕ) : Type 0 where
  pub offset : ℕ
  pub at : j ≡ i + offset
  pub key_there : get_elem? keys offset ≡ some key
  pub none_before : (k : ℕ) → k < offset → get_elem? keys k ≢ some key

find_key-IsFirst :
    (key : Str) (i j : ℕ) (keys : List Str) → find_key key i keys ≡ some j → IsFirst key keys i j
unfolding find_key
find_key-IsFirst key i j [] h = absurd (cc)
find_key-IsFirst key i j (k ∷ ks) h = go (eq_str k key) refl h (find_key-IsFirst key (i + 1) j ks)
  where
    earlier :
        (f : IsFirst key ks (i + 1) j) (n : ℕ)
        → n < suc f.offset
        → eq_str k key ≡ false
        → get_elem? (k ∷ ks) n ≢ some key
    earlier f zero l e q = absurd (cc (e, (eq_str_iff k key).1 (some_inj q)))
    earlier f (suc n) l e q = f.none_before n (omega arith) q

    go :
        (b : Bool)
        → eq_str k key ≡ b
        → (if b then some i else find_key key (i + 1) ks) ≡ some j
        → (find_key key (i + 1) ks ≡ some j → IsFirst key ks (i + 1) j)
        → IsFirst key (k ∷ ks) i j
    go true e q rest = record {
      offset = 0;
      at = ground (arith, some_inj q);
      key_there = rw ((eq_str_iff k key).0 e) refl;
      none_before = λ n l. absurd (omega arith);
    }
    go false e q rest =
        let f = rest q in
        record {
          offset = suc f.offset;
          at = omega (arith, f.at);
          key_there = f.key_there;
          none_before = λ n l. earlier f n l e;
        }

-- What a report means by its key_index and key: the key at the index, which is the given one where one
-- is given, or else the first key equal to the given one.
pub data Located (keys : List Str) (key_index : Option ℤ) (key : Str) (i : ℕ) : Type 0 where
  by_index :
      (k : Str)
      → key_index ≡ some (pos i)
      → get_elem? keys i ≡ some k
      → (is_empty key ≡ true) ⊎ (k ≡ key)
      → Located keys key_index key i
  by_key :
      ((n : ℕ) → key_index ≢ some (pos n))
      → is_empty key ≡ false
      → IsFirst key keys 0 i
      → Located keys key_index key i

locate_by_key-Located :
    (keys : List Str) (key_index : Option ℤ) (key : Str) (i : ℕ)
    → ((n : ℕ) → key_index ≢ some (pos n))
    → locate_by_key key keys ≡ some i
    → Located keys key_index key i
unfolding locate_by_key
locate_by_key-Located keys key_index key i n h = go (is_empty key) refl h
  where
    go :
        (b : Bool)
        → is_empty key ≡ b
        → (if b then none else find_key key 0 keys) ≡ some i
        → Located keys key_index key i
    go true e q = absurd (cc)
    go false e q = by_key n e (find_key-IsFirst key 0 i keys q)

locate_at-Located :
    (keys : List Str) (j : ℕ) (key : Str) (i : ℕ)
    → locate_at j key keys ≡ some i
    → Located keys (some (pos j)) key i
unfolding locate_at
locate_at-Located keys j key i h = go (get_elem? keys j) refl h
  where
    matching :
        (k : Str) (a b : Bool)
        → get_elem? keys j ≡ some k
        → is_empty key ≡ a
        → eq_str k key ≡ b
        → (if not a && not b then none else some j) ≡ some i
        → Located keys (some (pos j)) key i
    matching k true b e x y q =
        by_index k (ap (λ m. some (pos m)) (some_inj q)) (rw (← some_inj q) e) (inl x)
    matching k false true e x y q =
        by_index k (ap (λ m. some (pos m)) (some_inj q)) (rw (← some_inj q) e)
          (inr ((eq_str_iff k key).0 y))
    matching k false false e x y q = absurd (cc)

    go :
        (o : Option Str)
        → get_elem? keys j ≡ o
        → (elim o [
          | none ↦ none
          | some k ↦ if not (is_empty key) && not (eq_str k key) then none else some j
        ])
          ≡ some i
        → Located keys (some (pos j)) key i
    go none e q = absurd (cc)
    go (some k) e q = matching k (is_empty key) (eq_str k key) e refl refl q

-- The index that a report is counted for, whenever one is located, is the index it names, and then a
-- key that it gives too stands there; or, where it names none that is not negative, the first index
-- at which the key stands that it gives.
pub locate_key_index-Located :
    (p : Platform) (ch : Channel) (key_index : Option ℤ) (key : Str) (i : ℕ)
    → locate_key_index p ch key_index key ≡ some i
    → Located (get_keys p ch) key_index key i
unfolding locate_key_index
locate_key_index-Located p ch (some (pos j)) key i h = locate_at-Located (get_keys p ch) j key i h
locate_key_index-Located p ch (some (negsuc n)) key i h =
    locate_by_key-Located (get_keys p ch) (some (negsuc n)) key i (λ m. λ q. cc) h
locate_key_index-Located p ch none key i h =
    locate_by_key-Located (get_keys p ch) none key i (λ m. λ q. cc) h
