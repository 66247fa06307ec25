-- ===== src/Containers/ArrayList.antt =====
-- class ArrayList (include/arraylist.h): references in an array of fixed capacity. `cap` is the
-- capacity; `none` is an access outside of the array.
pub mod Shifts
pub mod Elements
pub mod Methods
pub mod Interface
use tysos_cxx.Prelude.{
  ℕ, zero, suc, ◌+◌, ◌-◌, Bool, true, false, ◌&&◌, Option, none, some, ◌==◌, ltb, leb,
  if◌then◌else◌, ℤ, pos, negsuc,
}
use tysos_cxx.Containers.IList.{Item}

pub record ArrayList : Type 0 where
  pub count : ℕ
  pub arr : ℕ → Item

-- `ArrayList()`, which leaves the array as it is.
unfoldable pub array_list : (ℕ → Item) → ArrayList
array_list memory = record { count = 0; arr = memory }

unfoldable pub put : (ℕ → Item) → ℕ → Item → ℕ → Item
put arr i p j = if j == i then p else arr j

-- `arr[d] = arr[s]`
unfoldable pub move : ℕ → ℕ → ℕ → (ℕ → Item) → Option (ℕ → Item)
unfolding put
move cap d s arr = if ltb d cap && ltb s cap then some (put arr d (arr s)) else none

-- ArrayList::ShiftDown; `n` is the number of rounds that are left, c + 1.
unfoldable pub shift_down : ℕ → ℕ → ℕ → ℕ → (ℕ → Item) → Option (ℕ → Item)
shift_down cap zero d s arr = some arr
shift_down cap (suc n) d s arr = elim (move cap d s arr) [
  | none ↦ none
  | some arr' ↦ shift_down cap n (suc d) (suc s) arr'
]

-- ArrayList::ShiftUp after `d = d + c, s = s + c`; the round with `n` + 1 rounds left, n + 1 = c + 1,
-- moves arr[s + n] to arr[d + n], where d and s are the method's arguments.
unfoldable pub shift_up : ℕ → ℕ → ℕ → ℕ → (ℕ → Item) → Option (ℕ → Item)
shift_up cap zero d s arr = some arr
shift_up cap (suc n) d s arr = elim (move cap (d + n) (s + n) arr) [
  | none ↦ none
  | some arr' ↦ shift_up cap n d s arr'
]

-- ArrayList::Add
unfoldable pub add : ℕ → Item → ArrayList → ArrayList
unfolding put
add cap p a =
    if ltb a.count cap then record { count = a.count + 1; arr = put a.arr a.count p } else a

-- ArrayList::Clear
unfoldable pub clear : ArrayList → ArrayList
clear a = record a { count = 0 }

-- ArrayList::IndexOf from an index on, with `n` elements left; none is -1.
unfoldable pub index_from : (ℕ → Item) → Item → ℕ → ℕ → Option ℕ
index_from arr p i zero = none
index_from arr p i (suc n) = elim (arr i == p) [
  | true ↦ some i
  | false ↦ index_from arr p (suc i) n
]

unfoldable pub index_of : Item → ArrayList → Option ℕ
index_of p a = index_from a.arr p 0 a.count

-- ArrayList::Contains
unfoldable pub contains : Item → ArrayList → Bool
contains p a = elim (index_of p a) [ some i ↦ true | none ↦ false ]

-- ArrayList::RemoveAt
unfoldable pub remove_at : ℕ → ℤ → ArrayList → Option ArrayList
remove_at cap (negsuc k) a = some a
remove_at cap (pos i) a =
    if ltb i a.count
    then elim (shift_down cap (a.count - i) i (i + 1) a.arr) [
      | none ↦ none
      | some arr ↦ some (record { count = a.count - 1; arr = arr })
    ]
    else some a

-- ArrayList::Remove: RemoveAt is called before the index is tested, and again after.
unfoldable pub remove : ℕ → Item → ArrayList → Option (Bool × ArrayList)
remove cap p a = elim (index_of p a) [
  | none ↦ elim (remove_at cap (negsuc 0) a) [ none ↦ none | some b ↦ some (false, b) ]
  | some i ↦ elim (remove_at cap (pos i) a) [
    | none ↦ none
    | some b ↦ elim (remove_at cap (pos i) b) [ none ↦ none | some c ↦ some (true, c) ]
  ]
]

-- ArrayList::GetItem
unfoldable pub get_item : ℕ → ℤ → ArrayList → Option Item
get_item cap (pos i) a = if ltb i cap then some (a.arr i) else none
get_item cap (negsuc k) a = none

-- ArrayList::SetItem
unfoldable pub set_item : ℕ → ℤ → Item → ArrayList → Option ArrayList
unfolding put
set_item cap (pos i) p a = if ltb i cap then some (record a { arr = put a.arr i p }) else none
set_item cap (negsuc k) p a = none

-- ArrayList::Insert
unfoldable pub insert : ℕ → Item → ℤ → ArrayList → Option ArrayList
insert cap p (negsuc k) a = some a
insert cap p (pos i) a =
    if leb i a.count && ltb a.count cap
    then elim (shift_up cap (a.count - i + 1) (i + 1) i a.arr) [
      | none ↦ none
      | some arr ↦ elim (set_item cap (pos i) p (record a { arr = arr })) [
        | none ↦ none
        | some b ↦ some (record b { count = b.count + 1 })
      ]
    ]
    else some a

-- ArrayList::Enumerator::MoveNext: the enumerator's index, and whether there is an element.
unfoldable pub move_next : ℤ → ArrayList → ℤ × Bool
move_next (negsuc zero) a = (pos 0, true)
move_next (negsuc (suc k)) a = (negsuc k, true)
move_next (pos i) a = if ltb i a.count then (pos (i + 1), true) else (pos i, false)
