-- ===== src/BusDriver/Spi/Transfers.antt =====
-- What `spi_write` and `spi_read` send, and which device the driver remembers.
use linux_device_drivers.Base.{◌≡◌, List, [], ◌∷◌, ◌++◌, arith}
use linux_device_drivers.Machine.{Ptr, null, St, Env, Log, Returns, pure, ◌>>◌}
use linux_device_drivers.Kernel.{
  Call, K, Transfer, spi_message_init, spi_message_add_tail, spi_sync,
}
use linux_device_drivers.BusDriver.Spi.{Globals, Operation, probe, remove, write, read, spi_driver}

-- What a call makes of the message that is being built: the kernel's message is empty after
-- `spi_message_init` and grows at its end.
abbrev pub build : Call → List Transfer → List Transfer
build spi_message_init m = []
build (spi_message_add_tail t) m = m ++ (t ∷ [])
build _ m = m

unfoldable pub message : Log Call → List Transfer
message [] = []
message (e ∷ l) = build e.call (message l)

-- The messages sent, each with its device and its status, newest first.
abbrev pub send : Call → List Transfer → List (Ptr × List Transfer) → List (Ptr × List Transfer)
send (spi_sync d) m older = (d, m) ∷ older
send _ m older = older

unfoldable pub sent : Log Call → List (Ptr × List Transfer)
unfolding message
sent [] = []
sent (e ∷ l) = send e.call (message l) (sent l)

-- Any operations, one after the other.
unfoldable pub run : List Operation → K Globals (Unit {0})
run [] = pure tt
run (op ∷ ops) = do spi_driver op; run ops

-- What a sequence of operations asks of the driver: the device that is bound at its end, given the
-- one at its start, and the messages to be sent, newest first, on top of those before.
unfoldable pub bound : Ptr → List Operation → Ptr
bound d [] = d
bound d (probe p ∷ ops) = bound p ops
bound d (remove p ∷ ops) = bound null ops
bound d (write _ _ _ ∷ ops) = bound d ops
bound d (read _ _ _ ∷ ops) = bound d ops

abbrev pub request : Operation → List (Ptr × List Transfer)
request (probe p) = []
request (remove p) = []
request (write d b n) = (d, record { tx_buf = b; rx_buf = null; len = n } ∷ []) ∷ []
request (read d b n) = (d, record { tx_buf = null; rx_buf = b; len = n } ∷ []) ∷ []

unfoldable pub requests : List (Ptr × List Transfer) → List Operation → List (Ptr × List Transfer)
requests older [] = older
requests older (op ∷ ops) = requests (request op ++ older) ops

-- After any sequence of probes, removals and transfers the driver remembers the device of the last
-- probe, or NULL after a removal, and has sent exactly the messages asked for, in their order.
pub run-bound :
    (ops : List Operation) (env : Env Call) (s : St Call Globals)
    → Returns
        (λ _ t.
          (t.globals.spi_dev ≡ bound s.globals.spi_dev ops)
          × (sent t.log ≡ requests (sent s.log) ops))
        (run ops env s)
unfolding run bound requests spi_driver sent message
run-bound [] env s = ground arith
run-bound (probe p ∷ ops) env s = run-bound ops env _
run-bound (remove p ∷ ops) env s = run-bound ops env _
run-bound (write d b n ∷ ops) env s = run-bound ops env _
run-bound (read d b n ∷ ops) env s = run-bound ops env _
