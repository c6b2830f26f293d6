-- ===== src/Fabric/Effects/Steps.antt =====
-- What a read changes, and with it every step.
use emer_gen_z.Base.{ℕ, ◌≡◌, refl, inl, inr, none, some, length, false, ◌∙◌, ap, sym}
use mathlib.Core.Path.{subst}
use emer_gen_z.Fee.{Globals, Adapter, World, done, update}
use emer_gen_z.Bridge.Read.{ReadEnv, ReadResult, gf_bridge_read}
use emer_gen_z.Bridge.Read.Laws.{gf_bridge_read-releases}
use emer_gen_z.Fabric.{
  Fabric, world_of, after, IsClient, Step, posts, hears, serves, reads, empties, event_of,
}
use emer_gen_z.Fabric.Sound.{IsSound}
use emer_gen_z.Fabric.Effects.{reads_slot, Changes}
use emer_gen_z.Fabric.Effects.Sending.{posts-Changes}
use emer_gen_z.Fabric.Effects.Interrupts.{announces-Changes, serves-Changes}

reads-Changes :
    {n : ℕ} {g : Globals} (s t : Fabric) (j p : ℕ) (env : ReadEnv) (buflen : ℕ) (r : ReadResult)
    (a : Adapter) (w : World)
    → IsSound n g s
    → IsClient n j
    → (s.node j).incoming_slot ≡ some p
    → gf_bridge_read env buflen (s.node j) (world_of s) ≡ done r a w
    → t ≡ after s j a w s.bells
    → Changes n s t (empties p)
reads-Changes {n} s t j p env buflen r a w ok cj waits run is =
    let (i, ci, at) = ok.waits_for j p cj waits in
    let both = sym run ∙ gf_bridge_read-releases env buflen p (s.node j) (world_of s) waits in
    let same : a ≡ record (s.node j) { incoming_slot = none; incoming_slot_locked = false } =
      cc (both) in
    let same' : w ≡ record (world_of s) { mem = update s.mem p (record (s.mem p) { buflen = 0 }) } =
      cc (both) in
    subst (λ q. Changes n s t (empties q)) at
      (record {
        actor = j;
        owner = i;
        slot = record (s.mem p) { buflen = 0 };
        effect = record {
          adapter = a;
          actor = cj;
          owner = ci;
          node_is = ap (λ (f : Fabric). f.node) is;
          mem_is =
              ap (λ (f : Fabric). f.mem) is
              ∙ (ap (λ (v : World). v.mem) same'
                  ∙ ap (λ q. update s.mem q (record (s.mem p) { buflen = 0 })) (sym at));
          size_kept = ap (λ q. length (s.mem q).buf) (sym at);
          layout_kept = ap (λ (y : Adapter). y.globals) same;
          id_kept = ap (λ (y : Adapter). y.my_id) same;
          slot_kept = ap (λ (y : Adapter). y.my_slot) same;
          room_kept = ap (λ (y : Adapter). y.max_buflen) same;
          incoming = inr (inl (ap (λ (y : Adapter). y.incoming_slot) same));
        };
        change = reads_slot refl (waits ∙ ap some (sym at)) (ap (λ (f : Fabric). f.bells) is);
      })

-- Every step of a sound fabric changes one client and one slot, in one of these ways.
pub Step-Changes :
    {n : ℕ} {g : Globals} {s t : Fabric}
    → IsSound n g s
    → (step : Step n s t) → Changes n s t (event_of step)
unfolding event_of
Step-Changes {s = s} {t = t} ok (posts i cid sid buf ret a w c accepted run is) =
    posts-Changes s t i cid sid buf ret a w ok c accepted run is
Step-Changes {s = s} {t = t} ok
      (hears j i before behind env vector h a w cj ci due hearing ordinary run is) =
    announces-Changes s t j i before behind env vector h a w ok cj ci due hearing ordinary run is
Step-Changes {s = s} {t = t} ok (serves j i before behind x a w cj ci due run is) =
    serves-Changes s t j i before behind x a w ok cj ci due run is
Step-Changes {s = s} {t = t} ok (reads j p env buflen r a w c waits run is) =
    reads-Changes s t j p env buflen r a w ok c waits run is
