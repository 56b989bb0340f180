-- ===== src/Field/Tests.antt =====
-- A buffer of three fields, and the theorems at it.
use casual.Base.{find_if, ℕ, ◌≡◌, ◌⊎◌, refl, List, [], ◌∷◌, ◌++◌, arith, some, none, length}
use casual.Bytes.Network.{big_endian, network, network-IsByteOrder}
use casual.Field.Buffer.{
  Buffer, find_index, count_entries, append, remove, update, select, update_index,
}
use casual.Field.Items.{Item, memory_of, index_of, Represents}
use casual.Field.Sequence.{add, get, change, delete, Simulates}
use casual.Pool.{find}
use casual.Field.Pool.{next, success, has_type}
use casual.Field.Pool
use casual.Field.Codes.{change_code, expected_code, is_some}
use casual.Field.Pool.{text, number}
use casual.Field.Traversal.{next_follows}
use casual.Field.Append.{append-Simulates}
use casual.Field.Remove.{remove-Simulates, select-get}
use casual.Field.Update.{update-Simulates}
use casual.Field.Received.{update_index-Represents}

-- Field 7 twice, and field 300 between.
abbrev fields : List Item
fields = (7, 65 ∷ 66 ∷ []) ∷ (300, []) ∷ (7, 1 ∷ 2 ∷ 3 ∷ []) ∷ []

abbrev buffer : Buffer
buffer = record { capacity = 80; memory = memory_of network fields; index = index_of 0 fields }

buffer-Represents : Represents network buffer fields
unfolding memory_of index_of big_endian
buffer-Represents = record {
  memory = refl;
  index = refl;
  ids = (omega arith, (omega arith, (omega arith, tt)));
  fits = omega arith;
  bounded = omega arith;
}

append-Simulates_example :
    Simulates network buffer (append network 9 (4 ∷ []) buffer) (add 80 9 (4 ∷ []) fields)
append-Simulates_example =
    append-Simulates network network-IsByteOrder buffer fields buffer-Represents 9 (4 ∷ [])
      (omega arith) (omega arith)

remove-Simulates_example : Simulates network buffer (remove network 7 1 buffer) (delete 7 1 fields)
remove-Simulates_example =
    remove-Simulates network network-IsByteOrder buffer fields buffer-Represents 7 1

update-Simulates_example :
    Simulates network buffer
      (update network 7 0 (9 ∷ 9 ∷ 9 ∷ []) buffer)
      (change 80 7 0 (9 ∷ 9 ∷ 9 ∷ []) fields)
update-Simulates_example =
    update-Simulates network network-IsByteOrder buffer fields buffer-Represents 7 0
      (9 ∷ 9 ∷ 9 ∷ []) (omega arith)

select-get_example :
    (get 7 1 fields ≡ none) × (select network 7 1 buffer ≡ none)
    ⊎ ((v rest : List ℕ) × (get 7 1 fields ≡ some v)
        × (select network 7 1 buffer ≡ some (length v, v ++ rest)))
select-get_example = select-get network network-IsByteOrder buffer fields buffer-Represents 7 1

update_index-Represents_example :
    update_index network (record { capacity = 80; memory = memory_of network fields; index = [] })
    ≡ some buffer
update_index-Represents_example =
    update_index-Represents network buffer fields [] network-IsByteOrder buffer-Represents

-- The buffer, under the handle 1000.
abbrev pool : Pool.Pool
pool = record { handle = 1000; buffer = buffer } ∷ []

next_follows_example :
    (next 1000 300 (count_entries 300 ((7, 0) ∷ [])) pool
      ≡ (success, some (7, count_entries 7 ((7, 0) ∷ (300, 18) ∷ []))))
    × (find_index 7 (count_entries 7 ((7, 0) ∷ (300, 18) ∷ [])) buffer.index ≡ some 34)
unfolding find find_if index_of
next_follows_example =
    next_follows pool 1000 (record { handle = 1000; buffer = buffer }) 300 18 7 34 ((7, 0) ∷ []) []
      refl refl

-- The first occurrence of a string field is in the buffer.
abbrev string_fields : List Item
string_fields = (201326599, 65 ∷ 0 ∷ []) ∷ []

abbrev string_buffer : Buffer
string_buffer = record {
  capacity = 20;
  memory = memory_of network string_fields;
  index = index_of 0 string_fields;
}

string_buffer-Represents : Represents network string_buffer string_fields
unfolding memory_of index_of big_endian
string_buffer-Represents = record {
  memory = refl;
  index = refl;
  ids = (omega arith, tt);
  fits = omega arith;
  bounded = omega arith;
}

change_code_example :
    ((Pool.change network 1000 201326599 0 6
        (text (66 ∷ 67 ∷ 68 ∷ 69 ∷ 0 ∷ []))
        (record { handle = 1000; buffer = string_buffer } ∷ [])).0
      ≡ expected_code
          (change 20 201326599 0 (66 ∷ 67 ∷ 68 ∷ 69 ∷ 0 ∷ []) string_fields).0
          (get 201326599 0 string_fields))
    × ((Pool.change network 1000 201326599 0 6
          (number 1 66)
          (record { handle = 1000; buffer = string_buffer } ∷ [])).0
        ≡ expected_code (is_some (get 201326599 0 string_fields)) (get 201326599 0 string_fields))
unfolding find find_if has_type
change_code_example =
    change_code network (record { handle = 1000; buffer = string_buffer } ∷ []) 1000
      (record { handle = 1000; buffer = string_buffer }) string_fields 201326599 0 6
      (66 ∷ 67 ∷ 68 ∷ 69 ∷ 0 ∷ []) 1 66 network-IsByteOrder refl string_buffer-Represents refl
      (omega arith)
