-- ===== src/Monitor/Publish/InPlace.antt =====
-- Publishing writes groups in place: their members and arrays are as they were.
use can_monitor.Monitor.Publish.{
  also_sent, is_due, Sent, publish_group, publish_chain, publish_cells,
}
use can_monitor.Base.{
  ℕ, zero, suc, List, [], ◌∷◌, Bytes, length, done, fault, ◌>>=◌, Safe, Safe-done, Safe-fault,
  Safe-bind, Safe-any, Safe-if, ◌≡◌, refl, arith,
}
use can_monitor.Monitor.Payload.{create_data_payload}
use can_monitor.Service.Json.{Json, deref}
use can_monitor.Service.State.{State}
use can_monitor.Tables.Defs.{live, freed, Slot, Node}
use can_monitor.Tables.Rewriting.{
  RewrittenChain, no_nodes, also_node, RewrittenCells, no_chains, also_chain,
}
use can_monitor.Tables.Sensorgroups.{Sensorgroup, Timeval}

-- The same group, up to the time of its last message.
abbrev pub SameGroup : Sensorgroup → Sensorgroup → Type 0
SameGroup sg sg' = sg' ≡ record sg { last_publish_time = sg'.last_publish_time }

module _ (json : Json) (clock : Bytes → Timeval) (st : State) where
  publish_group-SameGroup :
      (sg : Sensorgroup) → Safe (λ r. SameGroup sg r.0) (publish_group json clock st sg)
  unfolding publish_group
  publish_group-SameGroup sg =
      Safe-if (is_due (clock sg.id) sg)
        (λ _. Safe-any (deref st.monitor_id) _ λ name.
          Safe-any (create_data_payload json st.sensors_table sg) _ λ payload. Safe-done refl)
        λ _. Safe-done refl

  publish_chain-Rewritten :
      (c : List (Node Sensorgroup))
      → Safe (λ r. RewrittenChain SameGroup c r.0) (publish_chain json clock st c)
  unfolding publish_chain
  publish_chain-Rewritten [] = Safe-done no_nodes
  publish_chain-Rewritten (n ∷ ns) = by_slot n.slot refl (publish_chain-Rewritten ns)
    where
      by_slot :
          (slot : Slot Sensorgroup)
          → n.slot ≡ slot
          → Safe (λ r. RewrittenChain SameGroup ns r.0) (publish_chain json clock st ns)
          → Safe
              (λ (r : List (Node Sensorgroup) × Sent). RewrittenChain SameGroup (n ∷ ns) r.0)
              (elim slot [
                | freed ↦ fault
                | live sg ↦ publish_group json clock st sg >>= λ r.
                    publish_chain json clock st ns >>= λ rest.
                    done (record n { slot = live r.0 } ∷ rest.0, also_sent r.1 rest.1)
              ])
      by_slot freed e ih = Safe-fault
      by_slot (live sg) e ih =
          Safe-bind (publish_group json clock st sg) _ (publish_group-SameGroup sg) λ r h.
            Safe-bind (publish_chain json clock st ns) _ ih λ rest h'. Safe-done (
              also_node
                (record { key = refl; old = sg; new = r.0; before = e; after = refl; related = h })
                h')

  pub publish_cells-Rewritten :
      (left : ℕ) (cs : List (List (Node Sensorgroup)))
      → length cs ≡ left
      → Safe (λ r. RewrittenCells SameGroup cs r.0) (publish_cells json clock st left cs)
  unfolding publish_cells
  publish_cells-Rewritten zero [] e = Safe-done no_chains
  publish_cells-Rewritten zero (c ∷ cs) e = absurd (omega arith)
  publish_cells-Rewritten (suc left) [] e = Safe-fault
  publish_cells-Rewritten (suc left) (c ∷ cs) e =
      Safe-bind (publish_chain json clock st c) _ (publish_chain-Rewritten c) λ r h.
        Safe-bind (publish_cells json clock st left cs) _
          (publish_cells-Rewritten left cs (omega arith)) λ rest h'. Safe-done (also_chain h h')
