-- ===== src/Lib.antt =====
-- V-MAC is a link layer of named data for Linux: it takes the place of mac80211 below a wireless
-- driver. A node sends frames of an encoding (a 64-bit name) to whoever listens; data frames carry a
-- sequence number, and a receiver asks for what it missed with a DACK, a frame that lists holes in
-- the numbers. The modules here follow the files of vmac/.
--
-- - Words, Wire: the packed headers of vmac/vmac.h as bytes, and how the code reads them back.
-- - Skb, Structs, Kernel: `struct sk_buff` and the kernel's calls on it; the structs of vmac/vmac.h;
--   the state of the module, which is the global variables with the traces of what was aired, sent to
--   user space and freed; the kernel's answers to a call (`Env`); and the outcome of an operation,
--   a state or the fault that stops the kernel.
-- - Table: the hash tables of vmac/main.c (`find_tx`, `find_rx`, `add_tx`, `add_rx`) and `hash_del`.
--   Table/Refine has the abstract map by key.
-- - Queue: vmac/queue.c. `enq_uqueue`, `retrx`, `add_DACK` and `add_mgmt` append; `queuethread` gives frames
--   to the driver through `vmac_low_tx` (LowTx, from vmac/tx.c), `rqueuethread` takes received DACKs.
-- - Tx: `vmac_tx` of vmac/tx.c gives a frame of user space its headers and queues it; for an interest it
--   makes the entry of a receiver, for data that of a sender, and keeps a copy of the frame.
-- - Rx: vmac/rx.c. `ieee80211_rx_vmac` takes frames of the driver, `vmac_rx` treats them by type, `nl_send`
--   passes them on. Rx/Window is the branch for data frames, Rx/Retransmit that for DACKs. The set of
--   the received numbers is the abstract view of an entry's window (Rx/Sliding).
--   Rx/Recovered follows a DACK to the copies that the sender queues, Main/Redelivered these to the receiver,
--   Main/Returned the whole way from the receiver's DACK to the frame, Main/AllReturned all frames of a DACK.
-- - Dack: vmac/dack.c. `request_DACK`, `dackgen`, `prepDACK` with its scan of the window (Dack/Scan), and the
--   timer's handler `__sendDACK`.
-- - Clean: vmac/clean.c, the removal of an encoding when its timeout passes.
-- - Rate: vmac/rate.c, the adaptation of the three rates.
-- - Main: vmac/main.c, the start of the module and `nl_recv`, which takes the messages of user space to `vmac_tx`.
--   Main/Carried follows a frame from one user space to another.
-- - Net: a sender and a receiver of one encoding that run the above, with the air between them, as moves in any order:
--   `vmac_tx`, the rounds of `queuethread` and `rqueuethread`, DACKs of any content at the sender's driver, the making,
--   timing and sending of DACKs at the receiver, and frames of the air at its driver. Queue/Carry and Rx/Sending say
--   what the sender's queues, buffer and air hold through all of them, Dack/Undisturbed what the receiver's DACKs
--   leave as it is, and Rx/Fresh what the receiver takes for new. The DACKs that are served leave
--   out number WINDOW_TX while more than WINDOW_TX and at most twice as many frames were sent.
-- - Hooks: vmac/hooks.c. `ieee80211_alloc_hw_nm` makes the hardware of a driver and `ieee80211_register_hw` tests it
--   (Hooks/Checks), looks at its bands (Hooks/Bands) and calls the driver. Their branches
--   for kernels before 4.10 stand in Hooks/Older and Hooks/OlderRegister.
--
-- An operation runs alone: locks are left out, and where the code only tries one, the outcome is an
-- answer of the kernel. Pointers to entries are the entries that their lookups find. A pointer to a buffer holds
-- the buffer, which one pointer owns: the one that the code keeps after it queued the buffer (`skb2` in `vmac_rx`) is
-- wild, and `vmac_low_tx` faults on it. Words wrap where the C type does, on a little-endian machine.
--
-- Loops are structural, but for the scan of `prepDACK`, which runs on the number of frames as fuel: every
-- step takes at least one frame. The endless loops of the threads are modelled a round at a time.
--
-- Not modelled: the functions of vmac/hooks.c with an empty body or a constant result; the start of the
-- threads and of netlink, which are answers of the kernel;
-- vmac/key.c and the headers of mac80211 are copies, and vmac/vmac.mod.c is generated. The
-- driver, netlink and the memory allocators are answers of `Env`. The build options for overhearing and
-- NFD_VNLP are off.
pub mod Prelude
pub mod Rate
pub mod Words
pub mod Wire
pub mod Skb
pub mod Structs
pub mod Table
pub mod Kernel
pub mod LowTx
pub mod Queue
pub mod Samples
pub mod Dack
pub mod Rx
pub mod Tx
pub mod Clean
pub mod Main
pub mod Net
pub mod Hooks
