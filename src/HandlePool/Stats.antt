-- ===== src/HandlePool/Stats.antt =====
-- src/resource/resource_handle.h: `getStats`.
use cpp_grpc_db.Prelude.{ℕ, ◌+◌, ◌≤◌, Bool, false, List, length, total, ◌≡◌}
use cpp_grpc_db.Interleaving.{Follows}
use cpp_grpc_db.HandlePool.{Pool, Event, move}
use cpp_grpc_db.HandlePool.Ledger.{Books, Accepted, share, start, after, handle_run-Books}

pub record Stats : Type 0 where
  pub available_count : ℕ
  pub total_created : ℕ
  pub max_size : ℕ
  pub is_shutdown : Bool

abbrev pub get_stats : Pool → Stats
get_stats p = record {
  available_count = length p.available;
  total_created = p.total_created;
  max_size = p.max_size;
  is_shutdown = p.is_shutdown;
}

-- In every schedule in which `acquire` never hears that a resource it has just made is invalid:
-- `available_count`, and with it what threads own or make, is at most `total_created`, which is at
-- most `max_size`; as long as `is_shutdown` is false the three add up.
pub get_stats_lem :
    (p : Pool) (threads : ℕ) (xs : List (ℕ × Event))
    → Books p 0
    → Follows move Accepted (start p threads) xs
    → let s = after p threads xs in
      let stats = get_stats s.shared in
      (stats.available_count + total share s.threads ≤ stats.total_created)
      × (stats.total_created ≤ stats.max_size)
      × (stats.is_shutdown ≡ false
          → stats.total_created ≡ stats.available_count + total share s.threads)
get_stats_lem p threads xs b a =
    let books = handle_run-Books p threads xs b a in (books.covered, books.bounded, books.counted)
