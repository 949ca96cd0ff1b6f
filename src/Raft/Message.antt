-- ===== src/Raft/Message.antt =====
-- src/raft/message.rs: what nodes and clients send one another.
use toydb.Prelude.{ℕ, Bool, List}
use toydb.Error.{Result}
use toydb.Encoding.Bytes.{Bytes}
use toydb.Storage.Memory
use toydb.Raft.Log.{Entry, Index, Term, NodeId}

abbrev pub RequestId : Type 0
RequestId = ℕ

abbrev pub ReadSequence : Type 0
ReadSequence = ℕ

pub data Request : Type 0 where
  read : Bytes → Request
  write : Bytes → Request
  status : Request

pub record Status : Type 0 where
  pub leader : NodeId
  pub term : Term
  pub match_index : List (NodeId × Index)
  pub commit_index : Index
  pub applied_index : Index
  pub storage : Memory.Status

pub data Response : Type 0 where
  read : Bytes → Response
  write : Bytes → Response
  status : Status → Response

pub data Message : Type 0 where
  campaign : (last_index : Index) (last_term : Term) → Message
  campaign_response : (vote : Bool) → Message
  heartbeat : (last_index commit_index : Index) (read_seq : ReadSequence) → Message
  heartbeat_response : (match_index : Index) (read_seq : ReadSequence) → Message
  append : (base_index : Index) (base_term : Term) (entries : List Entry) → Message
  append_response : (match_index reject_index : Index) → Message
  read : (seq : ReadSequence) → Message
  read_response : (seq : ReadSequence) → Message
  client_request : (id : RequestId) (request : Request) → Message
  client_response : (id : RequestId) (response : Result Response) → Message

pub record Envelope : Type 0 where
  pub from : NodeId
  pub term : Term
  pub to : NodeId
  pub message : Message
