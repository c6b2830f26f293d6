-- ===== src/Examples/Bridge.antt =====
-- The theorems on the bridge driver, at one user and one message.
use emer_gen_z.Base.{
  ℕ, ◌+◌, ◌≡◌, refl, ◌≢◌, inl, true, false, none, some, List, [], ◌∷◌, ◌++◌, arith, length, take, ℤ,
  pos, error, erestartsys,
}
use emer_gen_z.Text.{codes}
use emer_gen_z.Text.Decimal.{decimal, digits}
use emer_gen_z.Fee.{Adapter, World, done, fault, update, and_then}
use emer_gen_z.Bridge.File.{gf_bridge_open, gf_bridge_flush, gf_bridge_release}
use emer_gen_z.Bridge.File.Laws.{
  IsOpen, IsClosed, start, then_step, opened, IsConsistent, FileSteps-IsConsistent,
  gf_bridge_release-faults,
}
use emer_gen_z.Bridge.Read.{ReadEnv, ReadResult, sidcid_text, gf_bridge_read}
use emer_gen_z.Bridge.Read.Laws.{gf_bridge_read-fits, gf_bridge_read-overruns}
use emer_gen_z.Bridge.Write.{WriteEnv, destination, send_to, send_restarting, gf_bridge_write}
use emer_gen_z.Bridge.Write.Laws.{writing, settle, gf_bridge_write-routes, send_restarting-ends}
use emer_gen_z.Examples.{adapter, open_adapter, buffers, world_with, env, env-Ticks}

abbrev mail : World
mail = world_with (codes "hello") 5

open_adapter-IsOpen : IsOpen open_adapter
open_adapter-IsOpen = record { users = refl; buffers = buffers; has_buffers = refl }

adapter-IsClosed : IsClosed adapter
adapter-IsClosed = record { users = refl; no_buffers = refl }

steps_example : IsConsistent open_adapter
unfolding gf_bridge_open
steps_example =
    FileSteps-IsConsistent mail adapter open_adapter
      (then_step start (opened true true (pos 0) refl)) (inl adapter-IsClosed)

race_example :
    (b c : Adapter) × (gf_bridge_flush 1 open_adapter mail ≡ done (pos 0) b mail)
    × (b.nr_users ≡ pos 0)
    × (gf_bridge_open true true b mail ≡ done (pos 0) c mail)
    × IsOpen c
    × (gf_bridge_release c mail ≡ fault)
race_example = gf_bridge_release-faults open_adapter mail open_adapter-IsOpen

abbrev pub read_env : ReadEnv
read_env = record {
  wait = λ a w. (pos 0, a, w);
  nonblocking = false;
  first_copy = pos 0;
  second_copy = pos 0;
}

-- client 3 has sent "hello"
abbrev waiting : Adapter
waiting = record open_adapter { incoming_slot = some 4864 }

abbrev read_waiting : Adapter
read_waiting = record waiting { incoming_slot = none; incoming_slot_locked = false }

abbrev read_mail : World
read_mail = record mail { mem = update mail.mem 4864 (record (mail.mem 4864) { buflen = 0 }) }

-- "300,27:" has seven bytes
fits_example :
    gf_bridge_read read_env 64 waiting mail
    ≡ done
        (record {
          ret = pos (5 + length (sidcid_text (mail.mem 4864)));
          copies =
              (0, sidcid_text (mail.mem 4864))
              ∷ (length (sidcid_text (mail.mem 4864)), take 5 (mail.mem 4864).buf)
              ∷ [];
          rewinds = true;
        })
        read_waiting
        read_mail
unfolding sidcid_text decimal digits
fits_example =
    gf_bridge_read-fits read_env waiting mail 4864 refl 64 (omega arith) (omega arith) (omega arith)
      refl refl

overruns_example :
    (r : ReadResult) × (gf_bridge_read read_env 11 waiting mail ≡ done r read_waiting read_mail)
    × (r.ret ≡ pos 12)
    × (r.copies
        ≡ (0, sidcid_text (mail.mem 4864))
          ∷ (length (sidcid_text (mail.mem 4864)), take 5 (mail.mem 4864).buf)
          ∷ [])
unfolding sidcid_text decimal digits
overruns_example =
    gf_bridge_read-overruns read_env waiting mail 4864 refl 11 (omega arith) refl (omega arith) refl
      refl

abbrev pub write_env : WriteEnv
write_env = record { copy_from_user = pos 0; kstrtoint = λ s. (pos 0, pos 300); try_env = λ k. env }

abbrev addressed : List ℕ
addressed = codes "300" ++ b':' ∷ codes "hello"

routes_example :
    gf_bridge_write write_env addressed open_adapter mail
    ≡ and_then
        (send_to write_env
          (destination write_env (writing open_adapter buffers addressed) (codes "300"))
          (codes "hello")
          9
          (writing open_adapter buffers addressed)
          mail)
        (settle buffers addressed)
routes_example =
    gf_bridge_write-routes write_env open_adapter mail buffers refl refl (omega arith) refl
      (codes "300") (codes "hello")
      (
        (λ e. absurd (omega arith)),
        (
          (λ e. absurd (omega arith)),
          (
            (λ e. absurd (omega arith)),
            (
              (λ e. absurd (omega arith)),
              ((λ e. absurd (omega arith)), ((λ e. absurd (omega arith)), tt)),
            ),
          ),
        ),
      )
      (omega arith)

restarting_example :
    (ret : ℤ) × (a' : Adapter) × (w' : World) × (send_restarting write_env 2 0
        (pos 300)
        (pos 27)
        (codes "hello")
        9
        open_adapter
        mail
      ≡ done ret a' w')
    × (ret ≢ error erestartsys)
restarting_example =
    send_restarting-ends write_env 2 0 (pos 300) (pos 27) (codes "hello") 9 open_adapter mail
      (λ k. env-Ticks) (omega arith)
