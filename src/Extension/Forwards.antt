-- ===== src/Extension/Forwards.antt =====
-- Where the forwards of requests are, and that no call of a plugin loses one.
use sm_rest.Prelude.{ℕ, suc, ◌+◌, ◌≡◌, ap, Bool, List, [], ◌∷◌, some, arith}
use sm_rest.Prelude.Int.{ℤ}
use sm_rest.Request.{RequestSpec}
use sm_rest.Thread.{TransferThread}
use sm_rest.Queue.{TransferEvent, EventKind}
use sm_rest.Extension.{
  JobRecord, RequestObject, RestExtension, Callback, find, drop_where, submit_job,
}
use sm_rest.Extension.Handles.{CallContext}
use sm_rest.Extension.Dispatch.{Reply, dispatch_intermediate, dispatch_complete}
use sm_rest.Extension.Plugins.{PluginCall, plugin_call}
use sm_rest.Extension.Objects.{IsSettled}
use sm_rest.Native.Sending.{handed_over, record_of, emptied}
use sm_rest.Extension.Table.{Below, Below-mono, find-Below, assign-Below, drop_jobs-Below}
use sm_rest.Extension.Counting.{
  count, held, held_by, kept, held_by_request, weight_of, total-assign, count-append, count_one,
  drop_jobs-held,
}
use sm_rest.Extension.CallRules.{by_plugin_call}
use sm_rest.Extension.Rules.{by_dispatch, by_complete}

-- The forwards that were made are those released, those that jobs and requests hold, and those of a
-- record that is on its way out; ids to come are not in the map.
pub record IsAccounted (owed : ℕ → ℕ) (extension : RestExtension) : Type 0 where
  pub below : Below extension.next_job_id extension.jobs
  pub accounts :
      (forward : ℕ)
      → count forward extension.created
        ≡ count forward extension.released
          + held forward extension.jobs
          + kept forward extension.requests
          + owed forward

-- A record that is submitted brings the forwards that were on their way.
submit_job-IsAccounted :
    (owed : ℕ → ℕ) (extension : RestExtension) (spec : RequestSpec) (entry : JobRecord)
    → IsAccounted (λ forward. owed forward + held_by forward entry) extension
    → IsAccounted owed (submit_job extension spec entry).0
unfolding submit_job
submit_job-IsAccounted owed extension spec entry h =
    let job_id = extension.next_job_id in
    let new = record entry { id = job_id } in
    record {
      below =
          assign-Below (suc job_id) extension.jobs job_id new (omega arith)
            (Below-mono job_id extension.jobs h.below);
      accounts = λ forward. ground (
        arith,
        h.accounts forward,
        total-assign (held_by forward) extension.jobs job_id new,
        ap (weight_of (held_by forward)) (find-Below job_id extension.jobs h.below),
      );
    }

-- What a request hands over is on its way.
handed_over-IsAccounted :
    (owed : ℕ → ℕ) (context : CallContext) (extension : RestExtension) (handle : ℕ)
    (object : RequestObject) (completed : ℕ) (payload : ℤ)
    → find extension.requests handle ≡ some object
    → IsAccounted owed extension
    → IsAccounted
        (λ forward. owed forward + held_by forward (record_of context object completed payload))
        (handed_over context extension handle object completed)
handed_over-IsAccounted owed context extension handle object completed payload found h = record {
  below = h.below;
  accounts = λ forward. omega (
    arith,
    h.accounts forward,
    count-append forward extension.created (completed ∷ []),
    count_one forward completed,
    total-assign (held_by_request forward) extension.requests handle
        (emptied object context.moved_from),
    ap (weight_of (held_by_request forward)) found,
  );
}

module _ (owed : ℕ → ℕ) where
  settled-IsAccounted :
      (before after : RestExtension)
      → IsSettled before after
      → IsAccounted owed before
      → IsAccounted owed after
  settled-IsAccounted before after settled h = record {
    below = rw (settled.ids, settled.jobs) h.below;
    accounts =
        λ forward. rw (settled.jobs) (omega (arith, settled.accounts forward, h.accounts forward));
  }

  drop_where-IsAccounted :
      (test : JobRecord → Bool) (extension : RestExtension)
      → IsAccounted owed extension
      → IsAccounted owed (drop_where test extension)
  unfolding drop_where
  drop_where-IsAccounted test extension h = record {
    below =
        drop_jobs-Below extension.next_job_id test extension.jobs extension.thread
          extension.released h.below;
    accounts = λ forward. omega (
      arith,
      h.accounts forward,
      drop_jobs-held forward test extension.jobs extension.thread extension.released,
    );
  }

  pub by_thread-IsAccounted :
      (extension : RestExtension) (thread : TransferThread)
      → IsAccounted owed extension
      → IsAccounted owed (record extension { thread = thread })
  by_thread-IsAccounted extension thread h = record { below = h.below; accounts = h.accounts }

  by_showing-IsAccounted :
      (extension : RestExtension) (shown : List Callback)
      → IsAccounted owed extension
      → IsAccounted owed (record extension { shown = shown })
  by_showing-IsAccounted extension shown h = record { below = h.below; accounts = h.accounts }

  pub plugin_call-IsAccounted :
      (extension : RestExtension) (call : PluginCall)
      → IsAccounted owed extension
      → IsAccounted owed (plugin_call extension call)
  plugin_call-IsAccounted =
      by_plugin_call (IsAccounted owed) settled-IsAccounted
        (λ before thread requested h. by_thread-IsAccounted before thread h) drop_where-IsAccounted
        (λ context before handle object completed payload url found h.
          submit_job-IsAccounted owed _ _ _
            (handed_over-IsAccounted owed context before handle object completed payload found h))

  pub dispatched-IsAccounted :
      (reply : Reply) (entry : JobRecord) (event : TransferEvent) (kind : EventKind)
      (extension : RestExtension)
      → IsAccounted owed extension
      → IsAccounted owed (dispatch_intermediate reply entry event kind extension)
  dispatched-IsAccounted =
      by_dispatch (IsAccounted owed)
        (λ before thread requested h. by_thread-IsAccounted before thread h) by_showing-IsAccounted
        plugin_call-IsAccounted

  pub completed-IsAccounted :
      (reply : Reply) (entry : JobRecord) (event : TransferEvent) (extension : RestExtension)
      → IsAccounted owed extension
      → IsAccounted owed (dispatch_complete reply entry event extension)
  completed-IsAccounted =
      by_complete (IsAccounted owed)
        (λ before thread requested h. by_thread-IsAccounted before thread h) by_showing-IsAccounted
        plugin_call-IsAccounted
