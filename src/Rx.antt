-- ===== src/Rx.antt =====
-- vmac/rx.c: `ieee80211_rx_vmac` takes frames from the driver, `vmac_rx` processes them by type, and
-- `nl_send` passes them to user space. The loops of `vmac_rx` stand in `Rx/Window`, for data frames,
-- and `Rx/Retransmit`, for DACKs. Overhearing, a build option, is off.
pub mod Window
pub mod Retransmit
pub mod Sliding
pub mod Receive
pub mod Stream
pub mod Serving
pub mod Sending
pub mod Pacing
pub mod Dispatch
pub mod EndToEnd
pub mod Data
pub mod Heard
pub mod Fresh
pub mod Pending
pub mod Recovery
pub mod Reported
pub mod Recovered
pub mod Report
mod Tests
use v_mac_kernel.Prelude.{
  ℕ, ◌+◌, ◌-◌, ◌^◌, List, [], ◌∷◌, ◌++◌, Option, none, some, Bool, true, false, ◌&&◌, ◌||◌, ltb,
  ◌==◌, if◌then◌else◌, length, get_or, take,
}
use v_mac_kernel.Words.{u8, u16, u32}
use v_mac_kernel.Skb.{Skb, Ptr, null, to, wild, memory, pull}
use v_mac_kernel.Structs.{EncodingRx, EncodingTx}
use v_mac_kernel.Table.{find, update}
use v_mac_kernel.Wire.{
  VmacHdr, hdr_interest, hdr_data, hdr_dack, hdr_announcement, hdr_injected, hdr_size, data_size,
  dack_size, read_hdr, read_data, read_dack,
}
use v_mac_kernel.Kernel.{
  Kernel, Env, Control, Message, no_pid, bad_length, null_dereference, wild_pointer, Outcome, ok,
  oops, ◌>>=◌, kfree_skb,
}
use v_mac_kernel.LowTx.{hdr80211_size}
use v_mac_kernel.Queue.{add_mgmt}
use v_mac_kernel.Dack.{request_dack, with_rx}
use Window.{Verdict, duplicate, accepted, receive}
use Retransmit.{Resend, resend_holes}

-- `bwsg` and the index of the rate, from the status of the received buffer.
pub bwsg_of : Env → ℕ
bwsg_of env = (if env.status.bw40 then 2 else 0) + (if env.status.short_gi then 1 else 0)

pub rate_idx_of : Env → ℕ
rate_idx_of env = u8 (env.status.rate_idx + (if env.status.ht then 12 else 0))

-- `nlh->nlmsg_len`, with its least value of 100.
pub nlmsg_len : ℕ → ℕ
nlmsg_len len = let n = u32 (len + 2 ^ 32 - 4 + 100) in if ltb n 100 then 100 else n

-- `nl_send`. A failed allocation returns and leaves the buffer allocated. The last copy takes
-- `skb->len - 4` bytes, a number below 2^32 as large as the subtraction wraps.
pub nl_send : Env → Skb → ℕ → ℕ → ℕ → Kernel → Outcome Kernel
nl_send env skb enc type seq s =
    if s.pidt == no_pid then kfree_skb (to skb) s else elim (env.new_skb s.skbs) [
      | none ↦ ok (record s { skbs = s.skbs + 1 })
      | some room ↦
          if ltb (length skb.bytes) 4
          then oops bad_length
          else kfree_skb (to skb) (record s {
            skbs = s.skbs + 1;
            sent =
                s.sent
                ++ record {
                  pid = s.pidt;
                  len = nlmsg_len (length skb.bytes);
                  control = record {
                    enc = enc;
                    seq = seq;
                    type = type;
                    bwsg = bwsg_of env;
                    rate_idx = rate_idx_of env;
                    signal = env.status.signal;
                  };
                  payload = take (length skb.bytes - 4) skb.bytes;
                }
                  ∷ [];
          })
    ]

-- The request that the end of a round makes.
abbrev pub request : Env → ℕ → Option ℕ → Kernel → Kernel
request env enc none s = s
request env enc (some round) s = request_dack env enc round s

-- The branch for a data frame, up to `nl_send`: the frame, its V-MAC header pulled, is passed on or
-- freed.
pub rx_data : Env → ℕ → Skb → Kernel → Outcome Kernel
rx_data env enc skb s =
    let seq = (read_data (memory skb)).seq in
    elim (find env.hash enc s.rx_enc) [
      | none ↦ kfree_skb (to skb) s
      | some vmacr ↦
          let timeout = some (env.jiffies + env.msecs_to_jiffies 30000) in
          receive env.jiffies seq (record vmacr { enc_timeout = timeout }) >>= λ v. elim v [
            | duplicate ↦
                kfree_skb (to skb) (with_rx env enc (λ r. record r { enc_timeout = timeout }) s)
            | accepted vmacr' round ↦
                nl_send env (pull data_size skb) enc hdr_data seq
                  (request env enc round (with_rx env enc (λ _. vmacr') s))
          ]
    ]

-- The branch for a DACK. The entry of the receive table is looked up and dropped, `vmacr = NULL`, so
-- that nothing is done at a receiver that hears it.
pub rx_dack : Env → ℕ → Skb → Kernel → Outcome Kernel
rx_dack env enc skb s =
    let ddr = read_dack (memory skb) in
    elim (find env.hash enc s.tx_enc) [
      | none ↦ kfree_skb (to (pull dack_size skb)) s
      | some vmact ↦
          resend_holes env ddr.round vmact.seq ddr.holes (pull dack_size skb) (record {
            vmact = record vmact { dackcounter = u16 (vmact.dackcounter + 1) };
            counter = 0;
            skb2 = null;
            kernel = s;
          })
          >>= λ st.
              kfree_skb (to skb) (record (st.kernel) {
                tx_enc = update env.hash enc (λ _. st.vmact) st.kernel.tx_enc;
              })
    ]

-- `vmac_rx`
pub vmac_rx : Env → Ptr → Kernel → Outcome Kernel
vmac_rx env null s = oops null_dereference
vmac_rx env wild s = oops wild_pointer
vmac_rx env (to skb) s =
    let h = read_hdr (memory skb) in
    let rest = pull hdr_size skb in
    if h.type == hdr_interest
    then nl_send env rest h.enc h.type 0 s
    else if h.type == hdr_data
    then rx_data env h.enc rest s
    else if h.type == hdr_dack
    then rx_dack env h.enc rest s
    else if h.type == hdr_announcement
    then nl_send env rest h.enc h.type 0 s
    else if h.type == hdr_injected
    then nl_send env (pull data_size rest) h.enc h.type (read_data (memory rest)).seq s
    else kfree_skb (to rest) s

-- `ieee80211_rx_vmac`: frames whose second address begins with 0xfe 0xfe are V-MAC's. DACKs wait in
-- `rx_upper` for `rqueuethread`; the rest is processed at once.
pub ieee80211_rx_vmac : Env → Skb → Kernel → Outcome Kernel
ieee80211_rx_vmac env skb s =
    if get_or (memory skb) 10 0 == 0xfe && get_or (memory skb) 11 0 == 0xfe
    then (let rest = pull hdr80211_size skb in
        let type = (read_hdr (memory rest)).type in
        if type == hdr_interest
          || (type == hdr_data || (type == hdr_announcement || type == hdr_injected))
        then vmac_rx env (to rest) s
        else if type == hdr_dack
        then ok (add_mgmt env (to rest) s)
        else kfree_skb (to rest) s)
    else kfree_skb (to skb) s
