-- ===== src/Json/Lookup.antt =====
-- A key of a JSON object after it, or another key, was set.
use cliff.Common.{String, ◌≡◌, false, ◌==◌, eq_iff, arith}
use cliff.Json.{Value, Fields, end, field, get, set}

pub get-set : (d : Fields) (k : String) (v : Value) → get (set d k v) k ≡ v
unfolding get set
get-set end k v = ground (arith, eq_iff k k)
get-set (field j w d) k v = ground (arith, get-set d k v)

pub get-set_other :
    (d : Fields) (k l : String) (v : Value) → (k == l) ≡ false → get (set d k v) l ≡ get d l
unfolding get set
get-set_other end k l v n = ground arith
get-set_other (field j w d) k l v n =
    ground (arith, get-set_other d k l v n, eq_iff j k, eq_iff j l, eq_iff k l)
