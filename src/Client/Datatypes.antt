-- ===== src/Client/Datatypes.antt =====
-- client/db_datatypes.py. Python's integers are natural numbers here, and a clock reading in
-- milliseconds is one too.
use raft_lsmt.Base.{
  ℕ, String, ◌≡◌, ◌↔◌, Bool, true, ◌&&◌, List, arith, Key, ◌==◌, nat_beq_iff, nat_key, string_key,
}
use text.Mathlib.TextEquality.{eq_iff}

pub record Node : Type 0 where
  pub cluster_name : String
  pub id : ℕ
  pub host : String
  pub port : ℕ

-- `content: any`: an integer, or the bytes of a value of another type.
pub data Content : Type 0 where
  int : ℕ → Content
  raw : List ℕ → Content

pub record Record : Type 0 where
  pub key_id : ℕ
  pub timestamp : ℕ
  pub content : Content

pub record QueryRequest : Type 0 where
  pub min_id : ℕ
  pub min_ts : ℕ
  pub max_id : ℕ
  pub max_ts : ℕ
  pub query_id : ℕ

pub record BatchMetrics : Type 0 where
  pub send_time_ms : ℕ
  pub ack_recv_time_ms : ℕ
  pub record_count : ℕ
  pub batch_bytes : ℕ

pub record ReadRequestMetrics : Type 0 where
  pub query_id : ℕ
  pub req_id : ℕ
  pub send_time_ms : ℕ
  pub recv_time_ms : ℕ
  pub record_count : ℕ
  pub records_bytes : ℕ

-- A frozen dataclass compares field by field.
abbrev pub node_beq : Node → Node → Bool
node_beq a b =
    a.cluster_name == b.cluster_name && (a.id == b.id && (a.host == b.host && a.port == b.port))

pub node_beq_iff : (a b : Node) → (node_beq a b ≡ true) ↔ (a ≡ b)
node_beq_iff a b = ground (
  arith,
  eq_iff a.cluster_name b.cluster_name,
  eq_iff a.host b.host,
  nat_beq_iff a.id b.id,
  nat_beq_iff a.port b.port,
)

instance abbrev pub node_key : Key Node
node_key = record { same_key = node_beq; same_iff = node_beq_iff }
