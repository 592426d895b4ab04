-- ===== src/RadixTree.antt =====
-- tree/radix-tree/radix-tree.c and radix-tree.h: a map from unsigned integers to pointers, as a tree of
-- nodes with 8 slots.
-- A node is reached through one slot only, so that a slot holds what its pointer leads to. The slots of
-- a node are a function of the index, which the mask keeps below 8. An item is a pointer that is never
-- followed, a number, and NULL is 0. `allocs` says which of the next calls of `calloc` succeed; where
-- the list ends they fail. Following a pointer that is no node, or reading `height_to_maxindex` out of
-- range, faults (`Run`). `unsigned int` has 32 bits.
pub mod Shape
pub mod Digits
pub mod Lookup
pub mod Grow
pub mod Insert
pub mod Map
pub mod Gang
mod Tests
use c_model.Common.{
  ℕ, zero, suc, ◌+◌, ◌-◌, ◌*◌, ◌/◌, ◌%◌, ◌^◌, List, [], ◌∷◌, ◌++◌, Option, none, some, Bool, true,
  false, ltb, leb, ◌==◌, if◌then◌else◌,
}
use c_model.Array.{get_elem?, length, replicate}
use c_model.Run.{◌>>=◌}

-- RADIX_TREE_MAP_SHIFT, RADIX_TREE_MAP_SIZE, RADIX_TREE_INDEX_BITS and RADIX_TREE_MAX_PATH
abbrev pub map_shift : ℕ
map_shift = 3

abbrev pub map_size : ℕ
map_size = 8

abbrev pub index_bits : ℕ
index_bits = 32

abbrev pub max_path : ℕ
max_path = 4

-- ~0U
abbrev pub max_word : ℕ
max_word = 4294967295

-- What a slot points to: nothing, an item, or a node with its count and slots.
pub data Slot : Type 0 where
  empty : Slot
  item : ℕ → Slot
  node : ℕ → (ℕ → Slot) → Slot

abbrev pub no_slots : ℕ → Slot
no_slots i = empty

-- `slots[i] = s`
abbrev pub set_slot : (ℕ → Slot) → ℕ → Slot → ℕ → Slot
set_slot slots i s j = if i == j then s else slots j

pub record Head : Type 0 where
  pub height : ℕ
  pub rnode : Slot
  pub height_to_maxindex : List ℕ

unfoldable pub radix_tree_maxindex : Head → Option ℕ
radix_tree_maxindex head = get_elem? head.height_to_maxindex head.height

-- `__maxindex`, of a height of at most 10, so that no shift is as wide as the word.
unfoldable pub maxindex : ℕ → ℕ
maxindex height =
    let tmp = height * map_shift in
    if leb index_bits tmp then max_word else max_word / 2 ^ (index_bits - tmp - 1) / 2

-- `radix_tree_head_new` and `radix_tree_initial`
unfoldable pub radix_tree_head_new : Head
radix_tree_head_new = record {
  height = 0;
  rnode = empty;
  height_to_maxindex = replicate max_path 0;
}

unfoldable pub init_from : ℕ → ℕ → List ℕ
unfolding maxindex
init_from zero i = []
init_from (suc k) i = maxindex i ∷ init_from k (suc i)

unfoldable pub radix_tree_initial : Head → Head
unfolding init_from
radix_tree_initial head = record head { height_to_maxindex = init_from max_path 0 }

-- The shift of a height; it wraps around for height 0, where it is not used.
unfoldable pub shift_of : ℕ → ℕ
shift_of height = (height + max_word) * map_shift % suc max_word

-- `shift -= RADIX_TREE_MAP_SHIFT`
unfoldable pub lower : ℕ → ℕ
lower shift = (shift + suc max_word - map_shift) % suc max_word

-- `(index >> shift) & RADIX_TREE_MAP_MASK`
unfoldable pub offset : ℕ → ℕ → ℕ
offset index shift = index / 2 ^ shift % map_size

-- The loop of `radix_tree_lookup` from a slot on.
unfoldable pub lookup_from : ℕ → ℕ → ℕ → Slot → Option ℕ
unfolding offset lower
lookup_from zero shift index empty = some 0
lookup_from zero shift index (item p) = some p
lookup_from zero shift index (node count slots) = none
lookup_from (suc height) shift index empty = some 0
lookup_from (suc height) shift index (item p) = none
lookup_from (suc height) shift index (node count slots) =
    lookup_from height (lower shift) index (slots (offset index shift))

unfoldable pub radix_tree_lookup : Head → ℕ → Option ℕ
unfolding radix_tree_maxindex lookup_from shift_of
radix_tree_lookup head index = radix_tree_maxindex head >>= λ max.
    if ltb max index
    then some 0
    else lookup_from head.height (shift_of head.height) index head.rnode

-- Whether `calloc` succeeds, and what is left of the outcomes.
unfoldable pub node_alloc : List Bool → Bool × List Bool
node_alloc [] = (false, [])
node_alloc (ok ∷ allocs) = (ok, allocs)

-- The first loop of `radix_tree_extend`. The table ends after `max_path` entries, and so does the fuel.
unfoldable pub find_height : ℕ → List ℕ → ℕ → ℕ → Option ℕ
find_height zero table index height = none
find_height (suc k) table index height =
    let rest = find_height k table index (suc height) in
    get_elem? table height >>= λ max. if ltb max index then rest else some height

-- The second loop, `rounds` times: a node on top of the root. The result says whether it came to the
-- end.
unfoldable pub grow : ℕ → Head → List Bool → Bool × Head × List Bool
unfolding node_alloc
grow zero head allocs = (true, head, allocs)
grow (suc rounds) head allocs =
    let more =
      grow rounds
        (record head { rnode = node 1 (set_slot no_slots 0 head.rnode); height = suc head.height })
        (node_alloc allocs).1 in
    if (node_alloc allocs).0 then more else (false, head, (node_alloc allocs).1)

abbrev pub is_empty : Slot → Bool
is_empty empty = true
is_empty (item p) = false
is_empty (node count slots) = false

unfoldable pub radix_tree_extend : Head → ℕ → List Bool → Option (Bool × Head × List Bool)
unfolding find_height grow
radix_tree_extend head index allocs =
    find_height (suc max_path) head.height_to_maxindex index (head.height + 1) >>= λ height. some (
      if is_empty head.rnode
      then (true, record head { height = height }, allocs)
      else grow (height - head.height) head allocs)

-- What the descent of `radix_tree_insert` does to a slot: the result of the function, the slot, and
-- whether the count of the node that the slot is in goes up.
pub record Inserted : Type 0 where
  pub result : ℕ
  pub slot : Slot
  pub counted : Bool

-- The last part: the slot is free, or the insertion is refused.
unfoldable pub place : ℕ → Slot → Inserted
place zero empty = record { result = 0; slot = empty; counted = true }
place (suc p) empty = record { result = 0; slot = item (suc p); counted = true }
place p (item q) = record { result = 1; slot = item q; counted = false }
place p (node count slots) = record { result = 1; slot = node count slots; counted = false }

-- A node with one of its slots as the rest of the descent left it.
abbrev pub put_back : ℕ → (ℕ → Slot) → ℕ → Bool → Inserted → Inserted
put_back count slots i added below = record {
  result = below.result;
  slot = node (if below.counted then suc count else count) (set_slot slots i below.slot);
  counted = added;
}

unfoldable pub insert_from : ℕ → ℕ → ℕ → ℕ → Slot → List Bool → Option Inserted
unfolding offset lower place node_alloc
insert_from zero shift index p slot allocs = some (place p slot)
insert_from (suc height) shift index p empty allocs =
    let i = offset index shift in
    let rest = insert_from height (lower shift) index p empty (node_alloc allocs).1 >>= λ below.
    some (put_back 0 no_slots i true below) in
    if (node_alloc allocs).0
    then rest
    else some (record { result = 1; slot = empty; counted = false })
insert_from (suc height) shift index p (item q) allocs = none
insert_from (suc height) shift index p (node count slots) allocs =
    let i = offset index shift in
    insert_from height (lower shift) index p (slots i) allocs >>= λ below.
    some (put_back count slots i false below)

-- The descent of `radix_tree_insert`, below the root.
unfoldable pub insert_below : Head → ℕ → ℕ → List Bool → Option (ℕ × Head)
unfolding insert_from shift_of
insert_below head index p allocs =
    insert_from head.height (shift_of head.height) index p head.rnode allocs >>= λ r.
    some (r.result, record head { rnode = r.slot })

unfoldable pub radix_tree_insert : Head → ℕ → ℕ → List Bool → Option (ℕ × Head)
unfolding radix_tree_maxindex radix_tree_extend insert_below
radix_tree_insert head index p allocs =
    let extend = radix_tree_extend head index allocs >>= λ r.
    if r.0 then insert_below r.1 index p r.2 else some (1, r.1) in
    radix_tree_maxindex head >>= λ max.
    if ltb max index then extend else if max == 0 then extend else insert_below head index p allocs

-- The pointer in a slot of a leaf.
unfoldable pub pointer_of : Slot → Option ℕ
pointer_of empty = some 0
pointer_of (item p) = some p
pointer_of (node count slots) = none

-- The loop of `__lookup` over the slots of a leaf from `j` on, `rounds` of them: the items found, and
-- the index to go on with, which is 0 once there are `max_items`.
unfoldable pub scan_leaf : ℕ → ℕ → ℕ → (ℕ → Slot) → ℕ → ℕ → Option (List ℕ × ℕ)
unfolding pointer_of
scan_leaf zero j index slots nr_found max_items = some ([], index)
scan_leaf (suc rounds) j index slots nr_found max_items =
    let skip = scan_leaf rounds (suc j) (suc index) slots nr_found max_items in
    let take_it = λ (p : ℕ).
      scan_leaf rounds (suc j) (suc index) slots (suc nr_found) max_items >>= λ r.
      some (p ∷ r.0, r.1) in
    pointer_of (slots j) >>= λ p.
    if p == 0 then skip else if suc nr_found == max_items then some (p ∷ [], 0) else take_it p

-- The loop of `__lookup` over the levels.
unfoldable pub lookup_leaf : ℕ → ℕ → ℕ → Slot → ℕ → Option (List ℕ × ℕ)
unfolding scan_leaf offset lower
lookup_leaf zero shift index slot max_items = some ([], index)
lookup_leaf (suc height) shift index empty max_items = none
lookup_leaf (suc height) shift index (item p) max_items = none
lookup_leaf (suc zero) shift index (node count slots) max_items =
    scan_leaf (map_size - index % map_size) (index % map_size) index slots 0 max_items
lookup_leaf (suc (suc height)) shift index (node count slots) max_items =
    lookup_leaf (suc height) (lower shift) index (slots (offset index shift)) max_items

-- The loop of `radix_tree_gang_lookup`, with `left` items still to find, on fuel.
unfoldable pub gang_from : ℕ → Head → ℕ → ℕ → ℕ → Option (List ℕ)
unfolding lookup_leaf shift_of
gang_from zero head max_index cur_index left = none
gang_from (suc k) head max_index cur_index left =
    let more = λ (found : List ℕ) (next_index : ℕ).
      gang_from k head max_index next_index (left - length found) >>= λ rest.
      some (found ++ rest) in
    let round = lookup_leaf head.height (shift_of head.height) cur_index head.rnode left >>= λ r.
    if r.1 == 0 then some r.0 else more r.0 r.1 in
    if left == 0 then some [] else if ltb max_index cur_index then some [] else round

-- The items that it places in `results`.
unfoldable pub radix_tree_gang_lookup : Head → ℕ → ℕ → Option (List ℕ)
unfolding radix_tree_maxindex gang_from
radix_tree_gang_lookup head first_index max_items = radix_tree_maxindex head >>= λ max_index.
    if is_empty head.rnode
    then some []
    else if max_index == 0
    then some []
    else gang_from (suc max_index) head max_index first_index max_items
