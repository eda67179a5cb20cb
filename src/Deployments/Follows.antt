-- ===== src/Deployments/Follows.antt =====
-- src/hawkbit-client.c: the state of the action moves along the diagram.
use rauc_hawkbit_updater.Base.{ℕ, Bool, true, false, ◌≡◌, inl, inr, sym, subst}
use rauc_hawkbit_updater.World.{Artifact, ActionState, UserData}
use rauc_hawkbit_updater.World.Quiet.{Shared, shared, Calm}
use rauc_hawkbit_updater.Services.{Services}
use rauc_hawkbit_updater.Download.{Pc}
use rauc_hawkbit_updater.Download.Table.{Takes}
use rauc_hawkbit_updater.Deployments.{
  done, Client, Next, Comes, poll, ask, wake, download, progress, complete, outside,
}
use rauc_hawkbit_updater.Deployments.Fits.{fits, is_waiting, Fits}
use rauc_hawkbit_updater.Deployments.Diagram.{◌⟶◌, stays, adopts, forgets, Move-⟶, completes-⟶}
use rauc_hawkbit_updater.Deployments.Polls.{Follows}
use rauc_hawkbit_updater.Deployments.Invariant.{
  polled, asked, woke, moved, completed, progressed, installs_fits, Comes-Fits,
}

polled-⟶ : (st st' : ActionState) (n n' : ℕ) → Follows st n st' n' → st ⟶ st'
polled-⟶ st st' n n' (inl (e, _)) = subst (λ x. st ⟶ x) (sym e) stays
polled-⟶ st st' n n' (inr (d, inl (e, _))) = subst (λ x. st ⟶ x) (sym e) (forgets d)
polled-⟶ st st' n n' (inr (d, inr (e, _))) = subst (λ x. st ⟶ x) (sym e) (adopts d)

moved-⟶ :
    (artifact : Artifact) (resume only : Bool) (pc pc' : Pc) (i w : Bool) (v u : Shared)
    → Takes artifact resume only pc v (done pc') u
    → fits pc i w v.action.state ≡ true
    → v.action.state ⟶ u.action.state
moved-⟶ artifact resume only pc pc' i w v u (_, _, _, inl (m, _)) f = Move-⟶ i w m f
moved-⟶ artifact resume only pc pc' i w v u (_, _, _, inr (m, _)) f = Move-⟶ i w m f

module _ {Node C E : Type 0} (s : Services Node C E)
    (q : (u : UserData) → Calm (s.software_ready_cb u)) (n : s.config.stream_bundle ≡ false) where
  Fits-⟶ :
      {t u : Client E}
      → Next s t u
      → Fits t.pc t.installs t.main (shared t.world)
      → t.world.action.state ⟶ u.world.action.state
  Fits-⟶ {t} (poll root res {r} {w} k e) i = polled-⟶ _ _ _ _ (polled s q n t i root res e).1
  Fits-⟶ {t} (ask stop_id k o e) i = (asked s q n t i stop_id k o e).1
  Fits-⟶ {t} (wake stop_id seen k e) i = (woke s q n t i stop_id seen k e).1
  Fits-⟶ {t} (download {pc} {w} e) i =
      moved-⟶ _ _ _ t.pc pc t.installs (is_waiting t.main) (shared t.world) (shared w)
        (moved s q n t i e) i.1
  Fits-⟶ {t} (progress msg c e) i =
      subst (λ (x : Shared). t.world.action.state ⟶ x.action.state)
        (sym (progressed s q n t i msg e)) stays
  Fits-⟶ {t} (complete b c e) i =
      subst (λ (x : Shared). t.world.action.state ⟶ x.action.state) (sym (completed s q n t i b e))
        (completes-⟶ t.pc (is_waiting t.main) t.world.action.state b (installs_fits s q n t i c))
  Fits-⟶ (outside env) i = stays

-- Every step of every thread, as the other threads see it, moves the state of the action along an
-- edge of the diagram or leaves it, over any number of deployments and in whatever order the
-- threads take their turns: an installation begins only from downloading and ends in success or
-- error, a requested cancelation is left only for canceled, error or, of a download alone, success,
-- and a new deployment is taken on only where none is in progress. Bundles are not streamed,
-- hawkBit cancels another action than the client's only while the client works on none, and the
-- callback that starts the installation just starts it.
pub Next-⟶ :
    {Node C E : Type 0} (s : Services Node C E) (t u : Client E)
    → ((d : UserData) → Calm (s.software_ready_cb d))
    → s.config.stream_bundle ≡ false
    → Comes s t
    → Next s t u
    → t.world.action.state ⟶ u.world.action.state
Next-⟶ s t u q n c st = Fits-⟶ s q n st (Comes-Fits s t q n c)
