-- ===== src/Lib.antt =====
-- runV, a runtime that runs each group of OCI containers in a virtual machine of its own
-- (hyperhq/runv). This library models the core of its package hypervisor, the context of one
-- virtual machine ("sandbox"), and what that context stands on.
--
-- The parts and how they interact. A sandbox is a VmContext. Its event loop
-- (hypervisor/hypervisor.go) takes events from a channel, the Hub, and gives them to the
-- state's handler (hypervisor/vm_states.go); drivers, a timer, the API and the goroutines that
-- the handlers start write to the Hub or act on the context beside the loop. Requests on
-- volumes, containers and interfaces run under the context's lock and start goroutines that
-- wait for the driver or for a WaitGroup; what they find is sent on the caller's channel. A
-- sandbox with vsock takes a cid from the allocator of lib/vsock and gives it back when it
-- closes.
--
-- Prelude: what the modules share: Boolean tests (Prelude/Tests), lists indexed by native
-- numbers (Prelude/Lists), and Go's maps as association lists (Prelude/Maps).
--
-- Hyperstart: agent/hyperstart.go. Hyperstart holds the frames of the control channel and of
-- the streams' channel, with the loop that readVmMessage and readTtyMessage share, over reads
-- of any size; Hyperstart/RoundTrip proves the round trips. Hyperstart/Commands holds what goes
-- through ctlChan and how a message is made into bytes, with encoding/json an argument, and
-- Hyperstart/Queue the goroutine handleMsgToHyperstart and what Close does with the rest: one
-- command at a time, with the number of bytes that the connection takes as an argument.
-- Hyperstart/Queue/Answers, Hyperstart/Queue/Writes, Hyperstart/Queue/Pauses and
-- Hyperstart/Queue/Flow prove the properties, over Hyperstart/Queue/Counts and
-- Hyperstart/Queue/Valid. Hyperstart/Streams holds the table of processes and the ends of their
-- streams, and Hyperstart/Streams/Calls the calls; each call is one step under the lock, and
-- the success of its command is an argument. Hyperstart/Streams/Waiting and
-- Hyperstart/Streams/Ends prove the properties, over Hyperstart/Streams/Table and
-- Hyperstart/Streams/Steps. Stream numbers are unbounded.
--
-- Vsock: lib/vsock/vsock.go. Allocator is DefaultVsockCidAllocator, and new_allocator, get_cid,
-- mark_cid_inuse and release_cid are its constructor and its methods. Vsock/Roaring is the
-- interface of the bitmap library, which is a parameter with its documented laws. Vsock/Usage
-- and Vsock/Traces prove what one call and what a history of calls does.
--
-- Lifecycle: hypervisor/vm_states.go, hypervisor/hypervisor.go, and the timer, Become, Close
-- and SendVmEvent of hypervisor/context.go. A System is a context, the place of the loop's
-- goroutine, the Hub, and the numbers of shutdownVM's goroutines at each of their places; step
-- is one step of one goroutine, so a list of moves is an interleaving. What the context does to
-- the agent, the driver and the client is recorded as actions. Lifecycle/Once,
-- Lifecycle/Single, Lifecycle/Closing and Lifecycle/Races prove the properties.
--
-- Resources: hypervisor/disk.go, AddVolume, RemoveVolume, AddContainer and RemoveContainer of
-- hypervisor/context.go, and ContainerContext.add of hypervisor/container.go. Resources/Disks
-- and Resources/State hold the data, Resources/Methods the methods of DiskContext,
-- Resources/Volumes and Resources/Containers the requests, and Resources/Moves the steps. A
-- pointer to a disk is its place in a list, so that two holders of it share its changes; a
-- WaitGroup is a counter under a number. A request is given a channel with room for one
-- message, which is read when the request has returned, as Vm does for one volume or container;
-- a second send of the request blocks with the lock held, and then no other request runs. What
-- batchWaitResult does with many names is not modelled. Resources/Histories, Resources/Stuck,
-- Resources/Requests and Resources/Stalls prove the properties.
--
-- Networks: hypervisor/network.go. Networks/State holds the data, Networks/Slots the choice of
-- slots and names, Networks/Methods the operations of NetworkContext, Networks/Addresses the
-- loop over the addresses of an update, and Networks/Moves the steps. The first goroutine of an
-- addition is one step; network.Configure, the driver and the printing of numbers are
-- arguments. A pointer to an interface is its place in a list. A nil pointer that the code
-- would follow sets a flag instead.
--
-- Fanout: hypervisor/fanout.go. Fanout/Channels holds the state and the operations on one
-- channel, Fanout the calls and the steps of the goroutine that start begins. Fanout/Closing,
-- Fanout/Histories and Fanout/Delivery prove the properties.
--
-- Qmp: hypervisor/qemu/qmp_handler.go. Qmp holds the messages of the monitor's channel, the
-- handler, the commander and the receiver; a step is one message of the handler, one answer to
-- a commander, or one send by the driver, the timer, the initializer or the receiver. Whether a
-- command can be marshalled is an argument. Qmp/Phases says what holds while the handler
-- initializes, loops and has stopped; Qmp/Commands and Qmp/Handling keep it; Qmp/Safety and
-- Qmp/Unanswered prove the properties.
--
-- Persistence: hypervisor/persistence.go, over the descriptors of Resources and the interfaces
-- of Networks. dump gives nothing where the code follows the nil pointer of a reserved slot;
-- vm_context has the errors of vmContext in their order, with MarkCidInuse and the driver's
-- answer as arguments. Persistence/Volumes and Persistence/Restored prove what is there again.
--
-- Spec: agentCreate of hypervisor/container.go, which says to a container's agent what to
-- mount. A ContainerContext has what that function reads; path/filepath's Join and Clean and
-- the sharefs storage are arguments. Spec/Sources proves which disk a volume's storage names.
--
-- Factory: factory/. Factory/Vms holds Pause, SetCpus, AddMem, Kill and GetVm of
-- hypervisor/vm.go, Factory/Bases the factories of factory/direct, factory/single and
-- factory/multi. Factory/Choice and Factory/Sizes prove which base is taken and how large the
-- result is, and whether it is paused. Factory/Cache holds factory/cache, its goroutines as
-- moves of a history: a worker is at its call of the lower layer or at its select, and a send
-- and the receive that takes it are one move. The goroutines that New starts are all there at
-- the start, so that no history has one fail while New still starts others. Factory/Workers and
-- Factory/Drained prove what becomes of its virtual machines and of its closing. The answers of
-- the driver and the agent are arguments.
--
-- Bounds and fuel. The loop of readVmMessage and readTtyMessage has fuel for one read for each
-- byte of the stream and one round more, as a read returns one byte at least. Loops over a
-- map's or a slice's entries are structural. The scan of GetCid has the fuel of the code's own
-- bound, the size of the range. The loops of applySlot and nextAvailableDevName, which the code
-- bounds by MAX_NIC, have fuel for one more round than there are slots taken, which is enough
-- because each slot taken rules out one number; MAX_NIC is kept as a bound. Numbers are
-- unbounded where the code has an int that only counts up (SCSI and PCI addresses). Go ranges
-- over a map in any order; the model goes through the entries of its list.
--
-- What is not modelled: the drivers of hypervisors but for the monitor of qemu, the kata agent,
-- the command line, statistics, the console and terminal libraries, and what only does input
-- and output. Log lines are left out everywhere, and the texts of results where they print a
-- whole Go value.
pub mod Prelude
pub mod Vsock
pub mod Lifecycle
pub mod Resources
pub mod Networks
pub mod Fanout
pub mod Factory
pub mod Hyperstart
pub mod Qmp
pub mod Persistence
pub mod Spec
