-- ===== src/Lib.antt =====
-- linux-network-lab: models of the network programs of the repository, and what holds of them.
--
-- tcp_accelerator/tcp_accelerator.c, a proxy that splices each client's TCP connection to a server
-- through two user-space buffers (Accelerator.antt and the folder Accelerator):
--   Accelerator/Buffer.antt: `struct io_buffer` (`data` is `bytes`) with its helpers,
--     `receive_into_buffer` and `flush_buffer`. `size_t` differences wrap. `recv` and `send` are
--     arguments, functions from the room and from the bytes that they are given to their answers.
--   Accelerator/Session.antt: `struct connection`, what its two sockets have seen (the bytes each
--     way, the shutdowns, the masks that epoll holds), and the monad of the functions that change
--     both and may return -1.
--   Accelerator/Handlers.antt: the masks that `update_connection_events` asks for,
--     `process_client_event`, `process_server_event` and `connection_finished`. The result of
--     `shutdown` is not tested, as in the source.
--   Accelerator/Create.antt: `create_remote_socket`, `create_connection`, `destroy_connection`.
--   Accelerator/Runs.antt: the runs of one connection through the batches of `epoll_wait`.
--   Accelerator/Loop.antt: the loop of `main` over all connections, with the list of events of a
--     batch as its argument; a freed connection stays in the list of connections as freed.
--   Accelerator/Main.antt: the set-up of `main`, where each call may fail, and the loop around
--     `epoll_wait`, whose answers are an argument.
-- What the kernel is trusted with stands as hypotheses: `recv` and `send` keep to the sizes that
-- they are given (`IsDocumented`), and epoll reports EPOLLIN and EPOLLOUT only where they were
-- watched when the batch was fetched, at most once for each endpoint (`Reported`, `Batch`).
-- Not modelled: the address and the options that the set-up of `main` passes on, and printing.
-- The loops that are modelled run over a list of answers or of events, so no fuel is needed.
--
-- net_device/simple_netdev.c, a PCI network driver with two descriptor rings (NetDevice.antt and the
-- folder NetDevice):
--   NetDevice/Device.antt: `struct my_rx_desc`, `struct my_tx_desc` (`done` is `finished`), `struct
--     my_priv`, the registers, and what the kernel sees. skbs and buffers are numbers, NULL is
--     `none` or the empty ring.
--   NetDevice/Tx.antt: `my_tx_ring_full`, `my_start_xmit`, `my_tx_clean`, `my_free_pending_tx`.
--   NetDevice/Rx.antt: `my_poll`. The budget is not negative.
--   NetDevice/Irq.antt: `my_irq_handler`, `my_open`, `my_stop`. In NetDevice/Irq/Alive.antt the
--     handler and `my_poll` are cut into their accesses, between which other threads may run.
--   NetDevice/Mtu.antt: `my_change_mtu`.
--   NetDevice/Setup.antt and NetDevice/Setup/Probe.antt: the allocation and freeing of rings and
--     buffers, `my_hw_init`, `my_pci_probe` with a function for each label, `my_pci_remove`. What is
--     taken from the kernel and given back is recorded in order.
-- Elsewhere each call is one step of a run; the NIC fills receive descriptors in ring order, with
-- frames that fit their buffers, and gives back descriptors that it owns. The answers of the kernel (DMA mappings, allocations,
-- `napi_complete_done`) are arguments. The loop of `my_tx_clean` has the size of the ring as fuel,
-- which is enough since each round frees a place; all other loops are structural.
-- Not modelled: memory barriers, the MAC address, the tables of callbacks and module registration.
--
-- chat/server.c, a chat server (Chat.antt and the folder Chat):
--   Chat/Input.antt: the part of the loop of `main` that collects the bytes of a client
--     (`input_buffer` up to `input_len` is `input`) and takes lines off, for any server behind
--     `process_line` (the record `Server`). A round for each byte of the buffer is enough, since each
--     line has one at least.
--   Chat/Files.antt and Base/Decimal.antt: what `fgets`, `sscanf` and `printf` do to the two files.
--   Chat/Users.antt and Chat/Users/Db.antt: the table of users, `save_users` and `load_users`.
--     `users` is the first `user_count` entries. The answers of `fopen` and `rename` are arguments.
--   Chat/Messages.antt: `sanitize_message`, `append_message`, the readers of `messages.db` in
--     `show_last_messages` and `show_conversation_list`, and the sorting of the latter.
--   Chat/State.antt: `clients`, the two files' contents, and in `sent` and `closed` what has been
--     sent and which descriptors were closed, in order. A reply is a value of `Reply` with what the
--     format fills in.
--   Chat/Send.antt: `send_all` alone, on bytes.
--   Chat/Pages.antt, Chat/Commands.antt, Chat/Admin.antt: the pages and `process_line` with its four
--     modes. What the system answers while a line is processed is the record `Answers`.
--   Chat/Events.antt: `main` after `load_users`. An `Event` is a descriptor that `epoll_wait`
--     reports, with what `accept`, `epoll_ctl` and `recv` then return; `run` handles one after the
--     other. The n-th line has the n-th `Answers`.
--   Chat/Hall.antt: the specification. A `Hall` is the table of users, a seat for each client
--     (whether there is one, whether it is logged in, as whom, and its mode) and the stored messages;
--     `Step` is what may happen to it. The folder Chat/Hall relates the program to such steps.
-- What is written to an open file is taken to arrive there. Not modelled: the set-up of the listening
-- socket and the formatting of replies.
--
-- epoll_server/epoll_server.c, an echo server (EpollServer.antt and the folder EpollServer):
--   EpollServer.antt: the loop of `main`. Of the descriptors it is recorded which were accepted, are
--     open, are in the epoll set and were closed. The answers of the calls are arguments; the loop
--     around `accept` takes the list of those that succeed.
--   EpollServer/SetUp.antt: `main` up to the loop, with what each failure closes.
--
-- netfilter/mac_firewall.c, a packet filter (MacFirewall.antt and the folder MacFirewall): the hook,
-- with a function for each header that it looks at, and its registration. `ether_addr_equal`, `ntohs`
-- and `in_aton` are fields of the record `Kernel`; what is printed is left out.
--
-- linux_nic_lab/driver, the `edunic` PCI network driver with an emulated chip (Edunic.antt and the
-- folder Edunic):
--   Edunic/Adapter.antt: nic.h. Rings are functions of the index; the register file is as nic.h
--     documents it, so that reading ICR clears it. An skb is a number with its bytes.
--   Edunic/Tx.antt, Edunic/Rx.antt: nic_tx.c and nic_rx.c but for the set-up of the rings.
--   Edunic/Irq.antt: nic_irq.c. What `napi_schedule_prep` and `napi_complete_done` answer are
--     arguments.
--   Edunic/Hw.antt and Edunic/Hw/Mac.antt: nic_hw.c, the emulated chip included, and `edunic_open`
--     and `edunic_stop` of nic_main.c.
--   Edunic/Main.antt: the other functions of nic_main.c.
--   Edunic/Pci.antt: nic_pci.c with a function for each label, and the set-up and freeing of the
--     rings. What is acquired and given back is recorded in order.
--   Edunic/Machine.antt: `edunic_start_xmit`, `edunic_hw_tx_worker` and `edunic_poll` cut where
--     another CPU can come between, each with a program counter; `Turn` is one step, and `Run` any
--     sequence of them with the answers that NAPI promises (`Promised`). The loop of
--     `edunic_clean_tx_irq` and the whole of `edunic_clean_rx_irq` are one step. Edunic/Machine/View
--     is what transmission depends on, and Edunic/Machine/Invariant what holds of all threads.
-- The loops over the ring have its size as fuel, which is enough since each round takes a place.
-- Not modelled: memory barriers, the tables of callbacks, ethtool and module registration.
--
-- Not modelled: chat/server_group.c, the clients, and the small examples (tcp, udp, packet_capture,
-- kernel_network, ebpf).
pub mod Base
pub mod Accelerator
pub mod NetDevice
pub mod Chat
pub mod EpollServer
pub mod MacFirewall
pub mod Edunic
