-- ===== src/Raft/Log/Key.antt =====
-- The storage keys of src/raft/log.rs (`Key`) and their Keycode encoding.
use toydb.Prelude.{ℕ, ◌<◌, ◌≡◌, ◌≢◌, ◌∙◌, sym, ap, [], ◌∷◌, append-nil, arith}
use toydb.Error.{ok, ok_injective}
use toydb.Encoding.Bytes.{Bytes}
use toydb.Encoding.Keycode.{serialize_u64, deserialize_u64, u64_mod}
use toydb.Encoding.Keycode.Integers.{deserialize_u64-serialize_u64}

pub data Key : Type 0 where
  entry : ℕ → Key
  term_vote : Key
  commit_index : Key

unfoldable pub encode : Key → Bytes
encode (entry index) = 0 ∷ serialize_u64 index
encode term_vote = 1 ∷ []
encode commit_index = 2 ∷ []

index_of_encoded : (i : ℕ) → i < u64_mod → deserialize_u64 (serialize_u64 i) ≡ ok (i, [])
index_of_encoded i h = rw (append-nil (serialize_u64 i)) at (deserialize_u64-serialize_u64 i [] h)

tail_or : Bytes → Bytes
tail_or [] = []
tail_or (b ∷ bs) = bs

-- Entries at different indexes have different keys.
pub entry_injective :
    (i j : ℕ) → i < u64_mod → j < u64_mod → encode (entry i) ≡ encode (entry j) → i ≡ j
unfolding encode tail_or
entry_injective i j h k e =
    ap (λ (p : ℕ × Bytes). p.0)
      (ok_injective (
        sym (index_of_encoded i h)
        ∙ ap (λ (b : Bytes). deserialize_u64 (tail_or b)) e
        ∙ index_of_encoded j k))

pub term_vote-ne : (i : ℕ) → encode term_vote ≢ encode (entry i)
unfolding encode
term_vote-ne i e = ground arith

pub commit_index-ne : (i : ℕ) → encode commit_index ≢ encode (entry i)
unfolding encode
commit_index-ne i e = ground arith
