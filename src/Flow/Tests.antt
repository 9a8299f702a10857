-- ===== src/Flow/Tests.antt =====
-- The first flow of an empty table, and a second packet of it.
use bismark_passive.Prelude.{
  ◌+◌, List, [], ◌∷◌, false, refl, Bool, ◌%◌, ◌≡◌, ◌⊎◌, true, ◌&&◌, ltb, leb, arith,
}
use bismark_passive.Prelude.Int.{pos, ◌-ℤ◌, int_laws}
use bismark_passive.Constants.FlowId
use bismark_passive.Samples.{platform}
use bismark_passive.Flow.{
  FlowEntry, deleted, flow_table_init, entry_at, process_flow, out_of_bounds,
}
use bismark_passive.Flow.Live.{SameFlow, SameFlow-refl}
use bismark_passive.Flow.Later.{Event, packet, update, behind, behind_all, process_flow-again}
use bismark_passive.Flow.Valid.{IsValid, flow_table_init-IsValid}
use bismark_passive.Flow.Expire.{Expired}
use bismark_passive.Flow.Ids
use bismark_passive.Flow.Update.Advance.{base-advance}
use bismark_passive.Flow.Update.{over_threshold}
use bismark_passive.Flow.Packets.{process_flow-num_packets}
use bismark_passive.Flow.Samples.{
  query, first, accepted, home, home_entry, home_unsent, home_same, home_id, first-IsValid,
  first-out_of_bounds,
}

process_flow-IsValid_example :
    IsValid platform (process_flow platform flow_table_init query (pos 1000)).0
process_flow-IsValid_example =
    Ids.process_flow-IsValid platform flow_table_init query (pos 1000)
      (flow_table_init-IsValid platform)

-- from another port of the same host
abbrev second_query : FlowEntry
second_query = record query { port_source = 40001 }

second-is-other : SameFlow second_query query → ⊥
second-is-other same = let e : 40001 ≡ 40000 = same.port_source in absurd (omega arith)

and_false : (b : Bool) → (b && false) ≡ false
and_false true = refl
and_false false = refl

-- the second query, and an update
abbrev between : List Event
between = packet second_query (pos 1200) ∷ update (pos 1300) ∷ []

inside_behind :
    out_of_bounds (behind_all platform (first platform query (pos 1000)).0 between) (pos 1600)
    ≡ false
unfolding out_of_bounds behind ◌-ℤ◌
inside_behind = rw (base-advance _ (pos 1300)) (and_false _)

process_flow-again_example :
    (process_flow platform
      (behind_all platform (process_flow platform flow_table_init query (pos 1000)).0 between)
      query
      (pos 1600)).1
    ≡ (process_flow platform flow_table_init query (pos 1000)).1
unfolding first
process_flow-again_example =
    process_flow-again platform flow_table_init query query (pos 1000) (pos 1600) between
      (flow_table_init-IsValid platform) (SameFlow-refl query) (accepted platform query (pos 1000))
      ((second-is-other, omega int_laws), ((omega int_laws, omega int_laws), tt)) inside_behind
      (omega int_laws)

process_flow-others_example :
    let i = home platform query + 1 in
    (entry_at (process_flow platform flow_table_init query (pos 1000)).0 i
      ≡ entry_at flow_table_init i)
    ⊎ (Expired flow_table_init (pos 1000) i
        × (entry_at (process_flow platform flow_table_init query (pos 1000)).0 i
            ≡ record (entry_at flow_table_init i) { occupied = deleted }))
unfolding first
process_flow-others_example =
    Ids.process_flow-others platform flow_table_init query (pos 1000) (home platform query + 1)
      (flow_table_init-IsValid platform) (λ same. omega (arith, home_id platform query (pos 1000)))

process_flow-num_packets_example :
    let t = (process_flow platform flow_table_init query (pos 1000)).0 in
    let i = home platform query in
    let t' = (process_flow platform t query (pos 1600)).0 in
    ((entry_at t' i).num_packets ≡ ((entry_at t i).num_packets + 1) % 16)
    × (over_threshold (entry_at t' i)
        ≡ (leb 9 (entry_at t i).num_packets && ltb (entry_at t i).num_packets 15))
unfolding first
process_flow-num_packets_example =
    process_flow-num_packets platform (process_flow platform flow_table_init query (pos 1000)).0
      query (pos 1600) (home platform query) (first-IsValid platform query (pos 1000))
      (home_unsent platform query (pos 1000))
      (rw (home_entry platform query (pos 1000)) (omega arith))
      (home_same platform query (pos 1000)) (first-out_of_bounds platform query)
