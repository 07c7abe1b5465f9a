-- ===== src/Lib.antt =====
-- The habertest backend hands out machines to test runs. A client asks the allocate service
-- (hwallocator/provisioner) for hosts; the service asks the resource managers that send it
-- heartbeats, stores what they deliver in redis, and takes it back when the client releases it or
-- stops its heartbeats (hwallocator/heartbeat_server). The managers are a hypervisor of virtual
-- machines (resource_managers/hypervisor), a hardware manager (resource_managers/hardvisor) and a
-- cloud manager (resource_managers/cloudvisor).
--
-- Base and its children hold what the parts share: tests on the native numbers, lists, equality as
-- an interface, counts of list items, Python dicts as association lists, and code that changes a
-- state and may raise (Exec: what was written before an exception stays written).
--
-- Hypervisor.Vm models a machine (resource_managers/common/vm.py,
-- resource_managers/hypervisor/vms/physical_vm.py). Hypervisor.Allocator models `Allocator`
-- (resource_managers/hypervisor/vms/allocator.py): `begin_allocate` is allocate_vm up to the new
-- entry in `vms`, `finish_allocate` what follows the call of the vm manager, `destroy_locked`
-- destroy_vm under the machine's lock; the library behind the manager is known by its results. Its
-- children prove how a port is found (Ports), how a name is found (Names), how an allocation begins
-- (Begin), what is counted (Accounts, Keeps), what interleaved requests keep (Runs), what a client
-- relies on (Checks), what happens to the machines (Machines), and how machines are taken over at
-- the start (Restore, for `restore_vms`). Hypervisor.Rest models the handlers of
-- resource_managers/hypervisor/vms/rest.py, Rest.Rollback their rollback, Rest.Single those for one
-- machine. Hypervisor.Dhcp models how an address is chosen and its child Lease how one is asked for
-- (resource_managers/hypervisor/vms/dhcp_handlers.py).
--
-- Below the allocator, Hypervisor.Machines models `VMManager`
-- (resource_managers/hypervisor/vms/vm_manager.py), over Hypervisor.Images (image_store.py), Hypervisor.CloudInit (cloud_init.py),
-- Hypervisor.Template (vm_template.py, the domain definition line by line) and Hypervisor.Calls
-- (libvirt_wrapper.py and `DHCPManager`). These steps change a Session: the machine object and the
-- list of the calls that were made, which an `Os` answers. The tasks that `asyncio.gather` runs at
-- once are taken in any order, each in one piece; the tasks that come after a failure are returned
-- as those still running, and run when the failure has been handled. Machines.Made and Harmless say
-- what one task makes, Recorded what the machine object remembers meanwhile, Removed and Destroyed
-- what is deleted, Cleanup how a failure ends and Filled how a success does. Hypervisor.Storage
-- models how a disk gets its file system (storage.py, resource_managers/utils/filesystem.py),
-- Hypervisor.Info the queries of libvirt, Hypervisor.Startup the configuration, the checks and the
-- binding of GPUs of resource_managers/hypervisor/__main__.py, over Utils.Pci
-- (resource_managers/utils/pci.py), and Hypervisor.Devices the network device that it sets up
-- (resource_managers/utils/net.py). Machines.Leftovers is `delete_all_dangling_vms` of the
-- allocator.
--
-- Provisioner.Store models redis and `RedisClient` (hwallocator/provisioner/webapp/redisclient.py),
-- Provisioner.Requestor the calls to managers (rm_requestor.py), Provisioner.Fulfiller `Fulfiller`
-- (fulfiller.py) with the spreading of hosts in Fulfiller.Hosts, Provisioner.Expires one pass of
-- `expire_allocations` (expires.py), Provisioner.Heartbeats the heartbeats
-- (hwallocator/heartbeat_server/webapp/heartbeats.py, resourcemanager.py), Provisioner.Jobs the
-- handlers of rest.py, Provisioner.Claims the claims and offers of managers (claim.py). All are
-- handlers over the same two redis hashes. Provisioner.Dangling is the script
-- clean_dangling_vms.py. The unit of time is the microsecond.
--
-- Hardvisor models the stock of hardware (resource_managers/hardvisor/redis_client.py, manager.py),
-- Hardvisor.Start its filling from the configuration, Hardvisor.Webapp the requests (__init__.py)
-- and the periodic cleaner (periodically.py). Cloudvisor models the choice of an instance type and
-- the allocation of an instance (resource_managers/cloudvisor/ec2_manager.py, in Types and
-- Manager), the tags, instances and security groups of ec2_wrapper.py (Tags, Ec2, Groups), the
-- cleaner (cleaner.py) and the handlers that check a request and list an allocation
-- (webapp/rest.py) and the one that fulfils a request (Fulfill), Utils.Waiter the waiting loops of
-- resource_managers/utils/waiter.py (those for a settled result in its child Changing).
--
-- Fuel: the search for a port has the source's own bound of 500 attempts; the search for a name
-- gets one round more than there are machines, which is enough; the digits of a number get one
-- round more than the number; the loop over a manager's hosts gets one round per host; a waiting
-- loop gets more rounds than its time limit holds intervals; the wait for a network block device
-- ends with an error of its own when its fuel does.
--
-- Not modelled: the handlers of the cloud manager for one machine, the layers of the DHCP packets,
-- and all other start-up code, logging and I/O. The replies of HTTP calls, `bind`, the clock and
-- new ids are parameters. The tasks of one request to the hypervisor run one after the other in
-- Hypervisor.Rest; cancellation is modelled in the fulfiller alone.
pub mod Base
pub mod Cloudvisor
pub mod Hardvisor
pub mod Hypervisor
pub mod Provisioner
pub mod Utils
