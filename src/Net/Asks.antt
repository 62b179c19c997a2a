-- ===== src/Net/Asks.antt =====
-- The receiver's moves about its DACKs: `dackgen`, the timer and `queuethread` leave what was received as it was.
use v_mac_kernel.Prelude.{ℕ, ◌≡◌, refl, List, ◌++◌, Bool, length, take, drop}
use v_mac_kernel.Kernel.{Kernel, Env, ok}
use v_mac_kernel.Queue.{default_rate, rate_of, queuethread}
use v_mac_kernel.Queue.Priority.{HasFrames, served, asked, airs, queuethread_lem}
use v_mac_kernel.Queue.Append.{HasFrames-drop}
use v_mac_kernel.Dack.{prep_dack, send_dack}
use v_mac_kernel.Dack.Undisturbed.{Tame, Like-refl, Finds, Calm}
use v_mac_kernel.Dack.Requests.{prep_dack-Undisturbed}
use v_mac_kernel.Dack.Timer.{IsBuffer, send_dack_runs}
use v_mac_kernel.Rx.Heard.{Like-Represents}
use v_mac_kernel.Net.Receiver.{Hearing}

module _ (env : Env) (hash : ℕ → ℕ) (enc : ℕ) (got0 : ℕ → Bool) (log : List (ℕ × List ℕ))
    (s : Kernel) (v : Hearing hash enc got0 log s) where
  -- User space and what was received are as they were.
  steady-Hearing :
      (s' : Kernel)
      → Calm s s'
      → Finds IsBuffer hash enc v.vmacr s'
      → HasFrames s'.mqueue
      → Hearing hash enc got0 log s'
  steady-Hearing s' calm (entry, found, armed, like) frames = record {
    vmacr = entry;
    found = found;
    got = v.got;
    represents = Like-Represents v.vmacr entry v.got like v.represents;
    registered = rw calm.pidt v.registered;
    armed = armed;
    data_frames = rw calm.uqueue v.data_frames;
    mgmt_frames = frames;
    genuine = rw calm.sent v.genuine;
    once = rw calm.sent v.once;
    received = rw (calm.sent, like.latest) v.received;
    passed_on = rw calm.sent v.passed_on;
  }

  pub queuethread-Hearing :
      (s' : Kernel) × (queuethread env s ≡ ok s') × Hearing hash enc got0 log s'
  queuethread-Hearing =
      let m = served env.slot 0 (length s.mqueue) in
      let u = served env.slot (asked env.slot 0 (length s.mqueue)) (length s.uqueue) in
      (
        record s {
          aired =
              (s.aired ++ airs env (λ _. default_rate) (take m s.mqueue))
              ++ airs env rate_of (take u s.uqueue);
          mqueue = drop m s.mqueue;
          uqueue = drop u s.uqueue;
        },
        queuethread_lem env s v.mgmt_frames v.data_frames,
        record {
          vmacr = v.vmacr;
          found = v.found;
          got = v.got;
          represents = v.represents;
          registered = v.registered;
          armed = v.armed;
          data_frames = HasFrames-drop u s.uqueue v.data_frames;
          mgmt_frames = HasFrames-drop m s.mqueue v.mgmt_frames;
          genuine = v.genuine;
          once = v.once;
          received = v.received;
          passed_on = v.passed_on;
        },
      )

module _ (env : Env) (enc : ℕ) (got0 : ℕ → Bool) (log : List (ℕ × List ℕ)) (s : Kernel)
    (v : Hearing env.hash enc got0 log s) where
  pub prep_dack-Hearing :
      (k : ℕ) → (s' : Kernel) × (prep_dack env enc k s ≡ ok s') × Hearing env.hash enc got0 log s'
  prep_dack-Hearing k =
      let tame : Tame v.vmacr = λ on w. let (skb, e) = v.armed on in cc in
      let (s', e, d) =
        prep_dack-Undisturbed IsBuffer (λ skb. (skb, refl)) env enc k s (v.vmacr, v.found, tame) in
      (
        s',
        e,
        steady-Hearing env env.hash enc got0 log s v s' d.calm
            (d.finds enc v.vmacr (v.vmacr, v.found, v.armed, Like-refl v.vmacr))
            (rw d.mqueue v.mgmt_frames),
      )

  pub send_dack-Hearing :
      (s' : Kernel) × (send_dack env enc s ≡ ok s') × Hearing env.hash enc got0 log s'
  send_dack-Hearing =
      let (s', e, calm, frames, found) =
        send_dack_runs env enc v.vmacr s (v.vmacr, v.found, v.armed, Like-refl v.vmacr)
          v.mgmt_frames in
      (s', e, steady-Hearing env env.hash enc got0 log s v s' calm found frames)
