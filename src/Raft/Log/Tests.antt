-- ===== src/Raft/Log/Tests.antt =====
-- Runs and instances of src/raft/log.rs over a simple encoding of what the log stores.
use toydb.Prelude.{ℕ, zero, suc, ◌+◌, ◌<◌, ◌≡◌, refl, true, Option, none, some, [], ◌∷◌, arith}
use toydb.Error.{Result, ok, err, panic, invalid_data}
use toydb.Exec.{when, ensure, for_each}
use toydb.Encoding.Bytes.{Bytes, included, lex_lt, eq_bytes, in_range, is_reversed}
use toydb.Encoding.Keycode.{u64_mod, to_be_bytes, serialize_u64}
use toydb.Storage.BTreeMap
use toydb.Storage.Memory
use toydb.Raft.Log.Key
use toydb.Raft.Log.Key.{encode}
use toydb.Raft.Log.Safety.{Inv, Advances}
use toydb.Raft.Log.History.{
  Steps, stay, more, sets_term_vote, appends, commits, Steps-Safe, get-append,
}
use toydb.Raft.Log.Recovery.{Persisted, new-Steps}
use toydb.Raft.Log.{
  Log, Entry, Bincode, Term, NodeId, Index, Always, set_term_vote, append, commit, splice, get, new,
  scan, entry_range, last_position, on_engine, decode_entry, commit_to, splice_between, splice_rest,
  eq_vote, eq_command, is_contiguous, has_rising_terms, touches, skip_present, write_entries,
  delete_from, decode_or,
}

-- A number is one element, and an optional value has a tag before it.
abbrev pub decode_command : Bytes → Result Entry
decode_command (i ∷ t ∷ zero ∷ _) = ok (record { index = i; term = t; command = none })
decode_command (i ∷ t ∷ suc _ ∷ c) = ok (record { index = i; term = t; command = some c })
decode_command _ = err invalid_data

abbrev pub tag : Option Bytes → Bytes
tag none = 0 ∷ []
tag (some c) = 1 ∷ c

pub decode_command-encode :
    (e : Entry) → Always e → decode_command (e.index ∷ e.term ∷ tag e.command) ≡ ok e
decode_command-encode e h = by_command e.index e.term e.command
  where
    by_command :
        (i t : ℕ) (c : Option Bytes)
        → decode_command (i ∷ t ∷ tag c) ≡ ok (record { index = i; term = t; command = c })
    by_command i t none = refl
    by_command i t (some c) = refl

abbrev pub decode_vote : Bytes → Result (Term × Option NodeId)
decode_vote (t ∷ []) = ok (t, none)
decode_vote (t ∷ n ∷ _) = ok (t, some n)
decode_vote _ = err invalid_data

abbrev pub encode_vote : Term × Option NodeId → Bytes
encode_vote (t, none) = t ∷ []
encode_vote (t, some n) = t ∷ n ∷ []

pub decode_vote-encode : (v : Term × Option NodeId) → Always v → decode_vote (encode_vote v) ≡ ok v
decode_vote-encode (t, none) h = refl
decode_vote-encode (t, some n) h = refl

abbrev pub decode_commit : Bytes → Result (Index × Term)
decode_commit (i ∷ t ∷ _) = ok (i, t)
decode_commit _ = err invalid_data

abbrev pub plain : Bincode
plain = record {
  entries = record {
    encode = λ e. e.index ∷ e.term ∷ tag e.command;
    decode = decode_command;
    decode-encode = decode_command-encode;
  };
  votes = record { encode = encode_vote; decode = decode_vote; decode-encode = decode_vote-encode };
  commits = record {
    encode = λ c. c.0 ∷ c.1 ∷ [];
    decode = decode_commit;
    decode-encode = λ c h. refl;
  };
}

abbrev pub log_0 : Log
log_0 = record {
  engine = [];
  term = 0;
  vote = none;
  last_index = 0;
  last_term = 0;
  commit_index = 0;
  commit_term = 0;
  fsync = true;
}

runs : Unit {0}
unfolding when ensure for_each lex_lt eq_bytes in_range is_reversed to_be_bytes serialize_u64
    BTreeMap.get BTreeMap.insert BTreeMap.remove BTreeMap.range BTreeMap.select Memory.get
    Memory.set Memory.delete Memory.scan Memory.flush encode set_term_vote append commit splice get
    new scan entry_range last_position on_engine decode_entry commit_to splice_between splice_rest
    eq_vote eq_command is_contiguous has_rising_terms touches skip_present write_entries delete_from
    decode_or
runs = tt

new_empty : new plain [] ≡ (ok log_0, [])
unfolding runs
new_empty = refl

pub log_0-Inv : Inv plain log_0
unfolding runs
log_0-Inv = record {
  fits = omega arith;
  bounded = omega arith;
  placed = λ i v e h s d. absurd (cc s);
}

-- A vote in term 1, two entries, and the first one committed.
abbrev voted_1 : Log
voted_1 = (set_term_vote plain 1 (some 1) log_0).1

abbrev appended_1 : Log
appended_1 = (append plain (some (7 ∷ [])) voted_1).1

abbrev appended_2 : Log
appended_2 = (append plain none appended_1).1

abbrev committed_1 : Log
committed_1 = (commit plain 1 appended_2).1

-- A leader of term 2 replaces the second entry.
abbrev second : Entry
second = record { index = 2; term = 2; command = some (9 ∷ []) }

abbrev term_2 : Log
term_2 = (set_term_vote plain 2 none committed_1).1

abbrev spliced_2 : Log
spliced_2 = (splice plain (second ∷ []) term_2).1

room_1 : voted_1.last_index + 2 < u64_mod
unfolding runs
room_1 = omega arith

room_2 : appended_1.last_index + 2 < u64_mod
unfolding runs
room_2 = omega arith

to_committed : Steps plain log_0 committed_1
to_committed =
    more
      (more
        (more (more stay (sets_term_vote log_0 1 (some 1)))
          (appends voted_1 (some (7 ∷ [])) room_1))
        (appends appended_1 none room_2))
      (commits appended_2 1 (omega arith))

splice_runs :
    ((splice plain (second ∷ []) term_2).0 ≡ ok 2) × ((get plain 2 spliced_2).0 ≡ ok (some second))
unfolding runs
splice_runs = (refl, refl)

-- A committed entry may not be replaced.
splice_committed :
    (splice plain (record { index = 1; term = 2; command = none } ∷ []) term_2).0 ≡ panic
unfolding runs
splice_committed = refl

Steps-Safe_example : Inv plain committed_1 × Advances plain log_0 committed_1
Steps-Safe_example = Steps-Safe plain log_0 committed_1 log_0-Inv to_committed

positive : 0 < voted_1.term
unfolding runs
positive = omega arith

get-append_example : (append plain none voted_1).0 ≡ ok (voted_1.last_index + 1)
get-append_example = (get-append plain none voted_1 positive (omega (arith, room_1))).0

log_0-Persisted : Persisted plain log_0
unfolding runs
log_0-Persisted = record { vote = refl; commit = refl }

scanned :
    (Memory.scan (entry_range (included 0) (included 18446744073709551615)) committed_1.engine).0
    ≡ ok ((encode (Key.entry 1), 1 ∷ 1 ∷ 1 ∷ 7 ∷ []) ∷ (encode (Key.entry 2), 2 ∷ 1 ∷ 0 ∷ []) ∷ [])
unfolding runs
scanned = refl

position : last_position plain (some (encode (Key.entry 2), 2 ∷ 1 ∷ 0 ∷ [])) ≡ ok (2, 1)
unfolding last_position
position = refl

new-Steps_example :
    new plain committed_1.engine
    ≡ (ok (record committed_1 { last_index = 2; last_term = 1; fsync = true }), committed_1.engine)
new-Steps_example =
    new-Steps plain log_0 committed_1 _ 2 1 log_0-Persisted to_committed scanned position
