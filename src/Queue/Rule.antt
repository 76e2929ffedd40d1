-- ===== src/Queue/Rule.antt =====
-- The proof rule for the loop of `receive` in queue_delivery_demo.py.
use mathlib.Core.List.{append_assoc, append-nil}
use staff_sre_platform_engin.Shared.{
  suc, ℤ, pos, false, ◌&&◌, List, [], ◌∷◌, ◌++◌, Option, none, ◌≡◌, sym, subst, ◌≤ℤ◌, ◌<ℤ◌, if_ind,
  ltb_ℤ, ltb→lt, ltb→ge,
}
use staff_sre_platform_engin.Queue.Broker.{
  Broker, Message, Delivery, blocked, to_dlq, deliver, scan,
}

-- The broker in the middle of the loop.
abbrev pub at : Broker → List Message → Broker
at b l = record b { messages = l }

module _ {κ} (now timeout : ℤ) (P : Broker → Type κ) (Q : Option Delivery × Broker → Type κ)
    (finish : (b : Broker) → P b → Q (none, b))
    (bury : (b : Broker) (kept : List Message) (m : Message) (rest : List Message)
      → P (at b (kept ++ m ∷ rest))
      → m.visible_at ≤ℤ now
      → b.max_receive_count <ℤ pos (suc m.receive_count)
      → P (at (to_dlq b m) (kept ++ rest)))
    (send : (b : Broker) (kept : List Message) (m : Message) (rest : List Message)
      → P (at b (kept ++ m ∷ rest))
      → m.visible_at ≤ℤ now
      → (b.strict_group_ordering && blocked (kept ++ m ∷ rest) m) ≡ false
      → pos (suc m.receive_count) ≤ℤ b.max_receive_count
      → Q (deliver b kept m rest now timeout)) where
  pub scan_ind :
      (b : Broker) (kept rest : List Message)
      → P (at b (kept ++ rest))
      → Q (scan b kept rest now timeout)
  unfolding scan
  scan_ind b kept [] h = finish (at b kept) (subst (λ l. P (at b l)) (append-nil kept) h)
  scan_ind b kept (m ∷ rest) h =
      let pass =
        scan_ind b (kept ++ m ∷ []) rest
          (subst (λ l. P (at b l)) (sym (append_assoc kept (m ∷ []) rest)) h) in
      if_ind Q (ltb_ℤ now m.visible_at) (λ _. pass)
        λ visible.
          if_ind Q (b.strict_group_ordering && blocked (kept ++ m ∷ rest) m) (λ _. pass)
            λ free.
              if_ind Q (ltb_ℤ b.max_receive_count (pos (suc m.receive_count)))
                (λ over.
                  scan_ind (to_dlq b m) kept rest
                    (bury b kept m rest h (ltb→ge _ _ visible) (ltb→lt _ _ over)))
                (λ under. send b kept m rest h (ltb→ge _ _ visible) free (ltb→ge _ _ under))
