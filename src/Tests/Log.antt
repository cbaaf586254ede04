-- ===== src/Tests/Log.antt =====
-- The witnesses on the log: two events, one after the other.
use acp_server.Base.{◌≡◌, refl, ◌≢◌, arith, ap, true, false, some, [], ◌==◌, All}
use acp_server.Base.Int.{pos}
use acp_server.Base.Sql.{first, select, exists}
use acp_server.Store.{Db, Entry}
use acp_server.Audit.{
  log_event, append_row, insert_entry, last_row, new_row, numbered, hash_components, rows,
  verify_chain, compute_hash, hashed,
}
use acp_server.Audit.Chain.{IsLogged, log_event-IsLogged}
use acp_server.Audit.Verify.{HashHolds, verify_chain-IsLogged, verify_chain-HashHolds}
use acp_server.Audit.Tamper.{tamper, tamper_detected, KeepsLinks, forge_undetected}
use acp_server.Tests.Data.{host, draw_of, server, event}

empty-IsLogged : IsLogged host server
unfolding select
empty-IsLogged k = tt

abbrev once : Db
once = (log_event host (draw_of 1) event server).1

abbrev twice : Db
twice = (log_event host (draw_of 2) event once).1

log_event-IsLogged_example : IsLogged host once
log_event-IsLogged_example = log_event-IsLogged host (draw_of 1) event server empty-IsLogged

twice-IsLogged : IsLogged host twice
twice-IsLogged =
    log_event-IsLogged host (draw_of 2) event once
      (log_event-IsLogged host (draw_of 1) event server empty-IsLogged)

verify_chain-IsLogged_example : verify_chain host 1 twice ≡ (true, [])
verify_chain-IsLogged_example = verify_chain-IsLogged host twice 1 twice-IsLogged

verify_chain-HashHolds_example : All (HashHolds host) (rows 1 twice)
verify_chain-HashHolds_example =
    verify_chain-HashHolds host twice 1
      (ap (λ r. r.0) (verify_chain-IsLogged host twice 1 twice-IsLogged))

abbrev logged_row : Entry
logged_row = new_row host (draw_of 1) event server

abbrev cheaper : Entry → Entry
cheaper e = record e { cost_delta = pos 1 }

row_found : first (λ r. r.log_id == 101) once.audit_logs ≡ some logged_row
unfolding log_event append_row insert_entry first last_row hashed numbered compute_hash
    hash_components exists
row_found = refl

cheaper_differs : compute_hash host (cheaper logged_row) ≢ compute_hash host logged_row
unfolding last_row hashed numbered compute_hash hash_components
cheaper_differs h = omega arith

tamper_detected_example : (verify_chain host 1 (tamper 101 cheaper once)).0 ≡ false
unfolding hashed numbered
tamper_detected_example =
    tamper_detected host once 101 cheaper logged_row
      (log_event-IsLogged host (draw_of 1) event server empty-IsLogged) row_found refl refl
      cheaper_differs

cheaper-KeepsLinks : KeepsLinks cheaper
cheaper-KeepsLinks = record {
  keeps_covenant = λ e. refl;
  keeps_log_id = λ e. refl;
  keeps_sequence = λ e. refl;
  keeps_prev = λ e. refl;
}

forge_undetected_example :
    verify_chain host 1 (tamper 101 (λ r. hashed host (cheaper r)) twice) ≡ (true, [])
forge_undetected_example =
    forge_undetected host twice 101 1 cheaper twice-IsLogged cheaper-KeepsLinks
