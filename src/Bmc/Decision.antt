-- ===== src/Bmc/Decision.antt =====
-- What the state decision of the best master clock algorithm makes of a PTP clock.
use sfptpd.Prelude.{
  if_cases, ℕ, ◌+◌, ◌<◌, ◌≡◌, ◌≢◌, refl, Bool, true, false, not, ◌&&◌, ◌==◌, ltb, ◌⊎◌, inl, inr, ℤ,
  pos, negsuc, ◌≤ℤ◌, ltb_ℤ, arith,
}
use sfptpd.Foreign.Defs.{MsgHeader, MsgAnnounce, ForeignMaster, same_port}
use sfptpd.Bmc.Defs.{data_set_comparison}
use sfptpd.Bmc.Clock.{
  PortState, slave, master, passive, listening, faulty, RunTimeOpts, Clock, m1, p1, s1, copy_d0,
  note_master, received_interval, saturate_interval, state_decision, is_listening,
}

-- A log interval of announcements that the program supports.
abbrev pub IsInRange : ℤ → Type 0
IsInRange i = (negsuc 3 ≤ℤ i) × (i ≤ℤ pos 4)

received_interval-IsInRange :
    (i current : ℤ) → IsInRange current → IsInRange (received_interval i current)
unfolding received_interval saturate_interval
received_interval-IsInRange i current r = ground arith

module _ {Time : Type 0} (best : ForeignMaster Time) (opts : RunTimeOpts) (number : ℕ)
    (h : MsgHeader) (a : MsgAnnounce) (c : Clock) where
  abbrev new_master : Bool
  new_master = not (same_port best.header.source_port_identity c.parent_port_identity)

  -- What holds of each outcome of the decision holds of the decision: a slave, no change, a master,
  -- a passive port, a fault.
  state_decision_cases {κ} :
      (P : PortState × Clock → Type κ)
      → ((c.slave_only ≡ true) ⊎ (ltb c.clock_quality.clock_class 128 ≡ false)
          → P (slave, note_master new_master (s1 best c opts)))
      → P (listening, c)
      → P (master, m1 opts c)
      → P (passive, note_master new_master (p1 best c opts))
      → P (faulty, record c { protocol_errors = c.protocol_errors + 1 })
      → P (state_decision best opts number h a c)
  unfolding state_decision
  state_decision_cases P on_slave on_listening on_master on_passive on_faulty =
      if_cases P c.slave_only _ _ (λ e. on_slave (inl e))
        (λ _.
          if_cases P ((number == 0) && is_listening c.port_state) _ _ (λ _. on_listening)
            (λ _.
              if_cases P (ltb_ℤ comp (pos 0)) _ _ (λ _. on_master)
                (λ _.
                  if_cases P (ltb_ℤ (pos 0) comp) _ _
                    (λ _.
                      if_cases P (ltb c.clock_quality.clock_class 128) _ _ (λ _. on_passive)
                        (λ e. on_slave (inr e)))
                    (λ _. on_faulty))))
    where
      comp : ℤ
      comp =
          data_set_comparison opts.prefer_utc_valid c.parent_port_identity.clock_identity
            (copy_d0 c h a).0 (copy_d0 c h a).1 best.header best.announce

  -- A clock of a class below 128 that is not slave-only does not become a slave.
  pub state_decision-never_slave :
      c.slave_only ≡ false
      → c.clock_quality.clock_class < 128
      → (state_decision best opts number h a c).0 ≢ slave
  state_decision-never_slave m lt =
      state_decision_cases (λ r. r.0 ≢ slave) (λ e. absurd (conflict e)) (λ e. cc) (λ e. cc)
        (λ e. cc) (λ e. cc)
    where
      conflict : (c.slave_only ≡ true) ⊎ (ltb c.clock_quality.clock_class 128 ≡ false) → ⊥
      conflict e = ground arith

  -- The parent data set that belongs to a state after the decision.
  abbrev pub HasParent : PortState → Clock → Type 0
  HasParent slave d =
      (d.parent_port_identity ≡ best.header.source_port_identity)
      × (d.grandmaster_identity ≡ best.announce.grandmaster_identity)
      × (d.grandmaster_clock_quality ≡ best.announce.grandmaster_clock_quality)
  HasParent passive d =
      (d.parent_port_identity ≡ best.header.source_port_identity)
      × (d.grandmaster_identity ≡ best.announce.grandmaster_identity)
      × (d.grandmaster_clock_quality ≡ best.announce.grandmaster_clock_quality)
  HasParent master d =
      (d.parent_port_identity ≡ record { clock_identity = c.clock_identity; port_number = 0 })
      × (d.steps_removed ≡ opts.steps_removed)
      × (d.grandmaster_clock_quality ≡ c.clock_quality)
  HasParent other d =
      (d.parent_port_identity ≡ c.parent_port_identity)
      × (d.grandmaster_identity ≡ c.grandmaster_identity)
      × (d.grandmaster_clock_quality ≡ c.grandmaster_clock_quality)

  -- The decision leaves the parent data set that belongs to the state it returns: that of the best
  -- foreign master for a slave and a passive port, that of the clock itself for a master, and the
  -- one before it otherwise.
  pub state_decision-HasParent :
      HasParent (state_decision best opts number h a c).0 (state_decision best opts number h a c).1
  unfolding s1 p1 m1
  state_decision-HasParent =
      state_decision_cases (λ r. HasParent r.0 r.1) (λ e. noted new_master) (refl, refl, refl)
        (refl, refl, refl) (noted_passive new_master) (refl, refl, refl)
    where
      noted : (n : Bool) → HasParent slave (note_master n (s1 best c opts))
      noted true = (refl, refl, refl)
      noted false = (refl, refl, refl)

      noted_passive : (n : Bool) → HasParent passive (note_master n (p1 best c opts))
      noted_passive true = (refl, refl, refl)
      noted_passive false = (refl, refl, refl)

  -- The decision keeps the log interval of announcements in the range from -4 to 4, whatever the
  -- foreign master announces.
  pub state_decision-IsInRange :
      IsInRange c.log_announce_interval
      → IsInRange (state_decision best opts number h a c).1.log_announce_interval
  unfolding s1 p1 m1
  state_decision-IsInRange r =
      state_decision_cases (λ d. IsInRange d.1.log_announce_interval) (λ e. noted new_master) r r
        (noted_passive new_master) r
    where
      received :
          IsInRange (received_interval best.header.log_message_interval c.log_announce_interval)
      received =
          received_interval-IsInRange best.header.log_message_interval c.log_announce_interval r

      noted : (n : Bool) → IsInRange (note_master n (s1 best c opts)).log_announce_interval
      noted true = received
      noted false = received

      noted_passive : (n : Bool) → IsInRange (note_master n (p1 best c opts)).log_announce_interval
      noted_passive true = r
      noted_passive false = r
