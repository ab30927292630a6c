-- ===== src/Wrap/Output.antt =====
-- The wrappers of trace/vfd.c that write.
pub mod Shown
pub mod InOrder
use borderpatrol.Base.{
  ℕ, zero, suc, ◌-◌, Bool, true, false, Option, none, some, List, [], ◌∷◌, ◌++◌, ltb, ◌==◌,
  if◌then◌else◌, ◌>>=◌, length, take,
}
use borderpatrol.Base.Int.{ℤ, pos, negsuc, pos_part}
use borderpatrol.Protocol.{
  Event, event_ii, event_iii, Outcome, sys_write_begin, sys_write, sys_send_begin, sys_send,
  sys_sendto_begin, sys_sendto, sys_writev_begin, sys_writev, sys_sendfile_begin, sys_sendfile,
  sys_sendfile64_begin, sys_sendfile64,
}
use borderpatrol.Protocol.Dispatch.{Dispatcher, Data}
use borderpatrol.Vfd.{Vfd}
use borderpatrol.Vfd.Write.{vwrite_req}
use borderpatrol.Wrap.{Process, Config, update, index_of, logged, with_vfd}

unfoldable pub clear_writable_cache : ℕ → Process → Process
clear_writable_cache s p = record p { vsel_write = update p.vsel_write s false }

-- What `writev` shows of the vectors where so many bytes have been taken: `try` bytes of each, as far
-- as they go.
unfoldable pub tries : ℕ → List (List ℕ) → List (List ℕ)
tries todo [] = []
tries todo (base ∷ vec) =
    let try = if ltb todo (length base) then todo else length base in
    let rest = tries (todo - try) vec in take try base ∷ (if todo - try == 0 then [] else rest)

module _ (k : Config) (pp_write : Dispatcher → Data → ℤ → List ℕ → ℕ → Option (Outcome Data)) where
  unfoldable pub shown : ℕ → List ℕ → Process → Option Process
  shown fd buf p = vwrite_req pp_write (p.vfd_tab fd) (pos fd) buf >>= λ t.
      some (record (with_vfd fd t.0 p) { log = p.log ++ t.1 })

  -- One after another.
  unfoldable pub shown_all : ℕ → List (List ℕ) → Process → Option Process
  shown_all fd [] p = some p
  shown_all fd (buf ∷ bufs) p = shown fd buf p >>= λ p1. shown_all fd bufs p1

  -- With what the kernel's call returns: the plugin is shown so many bytes.
  unfoldable pub wrapped_output :
      ℤ → ℤ → Event → Event → (ℕ → Process → Option Process) → Process → Option (ℤ × Process)
  wrapped_output s r before behind show p =
      if k.bb_disable_all then some (r, p) else elim (index_of s) [
        | none ↦ some (r, p)
        | some fd ↦
            show fd (logged before p) >>= λ p1. some (r, logged behind (clear_writable_cache fd p1))
      ]

  unfoldable pub write : ℤ → List ℕ → ℤ → Process → Option (ℤ × Process)
  write s buf r =
      wrapped_output s r (event_ii sys_write_begin (pos 0) s (pos (length buf)))
        (event_ii sys_write r s (pos (length buf))) (λ fd p. shown fd (take (pos_part r) buf) p)

  unfoldable pub send : ℤ → List ℕ → ℤ → ℤ → Process → Option (ℤ × Process)
  send s buf flags r =
      wrapped_output s r (event_iii sys_send_begin (pos 0) s (pos (length buf)) flags)
        (event_iii sys_send r s (pos (length buf)) flags)
        (λ fd p. shown fd (take (pos_part r) buf) p)

  unfoldable pub sendto : ℤ → List ℕ → ℤ → ℤ → Process → Option (ℤ × Process)
  sendto s buf flags r =
      wrapped_output s r (event_iii sys_sendto_begin (pos 0) s (pos (length buf)) flags)
        (event_iii sys_sendto r s (pos (length buf)) flags)
        (λ fd p. shown fd (take (pos_part r) buf) p)

  -- Where there is no plugin, or nothing has been taken, the vectors are not looked at.
  unfoldable pub shown_vectors :
      ℕ → List (List ℕ) → ℕ → Option Dispatcher → Process → Option Process
  shown_vectors fd vec r none p = some p
  shown_vectors fd vec zero (some d) p = some p
  shown_vectors fd vec (suc r) (some d) p = shown_all fd (tries (suc r) vec) p

  unfoldable pub writev : ℤ → List (List ℕ) → ℤ → Process → Option (ℤ × Process)
  writev s vec r =
      wrapped_output s r (event_ii sys_writev_begin (pos 0) s (pos (length vec)))
        (event_ii sys_writev r s (pos (length vec)))
        (λ fd p. shown_vectors fd vec (pos_part r) (p.vfd_tab fd).pp_dispatcher p)

  -- The plugin is not shown what is sent from a file.
  unfoldable pub sendfile : ℤ → ℤ → ℕ → ℤ → Process → Option (ℤ × Process)
  sendfile out_fd in_fd count r =
      wrapped_output out_fd r (event_iii sys_sendfile_begin (pos 0) out_fd in_fd (pos count))
        (event_iii sys_sendfile r out_fd in_fd (pos count)) (λ fd p. some p)

  unfoldable pub sendfile64 : ℤ → ℤ → ℕ → ℤ → Process → Option (ℤ × Process)
  sendfile64 out_fd in_fd count r =
      wrapped_output out_fd r (event_iii sys_sendfile64_begin (pos 0) out_fd in_fd (pos count))
        (event_iii sys_sendfile64 r out_fd in_fd (pos count)) (λ fd p. some p)
