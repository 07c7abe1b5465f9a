-- ===== src/Hypervisor/Template.antt =====
-- The domain definition that libvirt is given (resource_managers/hypervisor/vms/vm_template.py): the
-- lines of the Jinja template with the fields of the machine put in. A line that holds nothing but a
-- `{% ... %}` tag leaves its indentation.
use Prim.Native.String.{◌++◌}
use habertest_backend.Base.{
  Bool, false, not, String, Option, none, some, List, [], ◌∷◌, ◌++◌ as append, nat_beq,
  if◌then◌else◌, string_eq, ◌==◌,
}
use habertest_backend.Hypervisor.Vm.{Vm, Disk, NetIface, Device, Port, number, text, missing}
use habertest_backend.Hypervisor.Allocator.Names.{decimal}

-- `{{ x }}` at a field that is `None`, and at a key that a dict does not have
or_none : Option String → String
or_none none = "None"
or_none (some s) = s

or_empty : Option String → String
or_empty none = ""
or_empty (some s) = s

port_text : Port → String
port_text (number n) = decimal n
port_text (text s) = s
port_text missing = "None"

-- `{% if x %}`: neither `None`, nor 0, nor the empty text
iso_given : Option String → Bool
iso_given none = false
iso_given (some s) = not (s == "")

port_given : Port → Bool
port_given (number n) = not (nat_beq n 0)
port_given (text s) = not (s == "")
port_given missing = false

abbrev tag : String
tag = "    "

general_lines : Vm → String → List String
general_lines machine metadata =
    "<domain type='kvm' id='3' xmlns:qemu='http://libvirt.org/schemas/domain/qemu/1.0'>"
    ∷ ("  <name>" ++ (machine.name ++ "</name>"))
    ∷ ("  <memory unit='GiB'>" ++ (decimal machine.memsize ++ "</memory>"))
    ∷ ("  <currentMemory unit='GiB'>" ++ (decimal machine.memsize ++ "</currentMemory>"))
    ∷ ("  <vcpu placement='static'>" ++ (decimal machine.num_cpus ++ "</vcpu>"))
    ∷ ("  <uuid>" ++ (machine.uuid ++ "</uuid>"))
    ∷ ""
    ∷ ("  <metadata>" ++ (metadata ++ "</metadata>"))
    ∷ ""
    ∷ []

abbrev platform_lines : List String
platform_lines =
    "  <resource>" ∷ "    <partition>/machine</partition>" ∷ "  </resource>" ∷ "  <os>"
    ∷ "    <type arch='x86_64' machine='pc-i440fx-wily'>hvm</type>" ∷ "    <boot dev='hd'/>"
    ∷ "  </os>" ∷ "  <features>" ∷ "    <acpi/>" ∷ "    <apic/>" ∷ "     <vmport state='off'/>"
    ∷ "    <kvm>" ∷ "    <hidden state='on'/>" ∷ "    </kvm>" ∷ "  </features>"
    ∷ "  <cpu mode='host-model'>" ∷ "    <model fallback='allow'/>" ∷ "  </cpu>"
    ∷ "  <clock offset='utc'>" ∷ "    <timer name='rtc' tickpolicy='catchup'/>"
    ∷ "    <timer name='pit' tickpolicy='delay'/>" ∷ "    <timer name='hpet' present='no'/>"
    ∷ "  </clock>" ∷ "  <on_poweroff>destroy</on_poweroff>" ∷ "  <on_reboot>restart</on_reboot>"
    ∷ "  <on_crash>restart</on_crash>" ∷ "  <pm>" ∷ "    <suspend-to-mem enabled='no'/>"
    ∷ "    <suspend-to-disk enabled='no'/>" ∷ "  </pm>" ∷ "  <devices>" ∷ []

boot_disk_lines : Vm → List String
boot_disk_lines machine =
    "    <emulator>/usr/bin/kvm-spice</emulator>"
    ∷ "    <disk type='file' device='disk'>"
    ∷ "      <driver name='qemu' type='qcow2'/>"
    ∷ ("      <source file='" ++ (or_none machine.image ++ "'/>"))
    ∷ "      <backingStore/>"
    ∷ "      <target dev='sda' bus='virtio'/>"
    ∷ "      <alias name='virtio-disk0'/>"
    ∷ "      <address type='pci' domain='0x0000' bus='0x00' slot='0x08' function='0x0'/>"
    ∷ "    </disk>"
    ∷ ""
    ∷ []

disk_lines : Disk → List String
disk_lines disk =
    "    <disk type='file' device='disk'>"
    ∷ "      <driver name='qemu' type='qcow2'/>"
    ∷ ("      <source file='" ++ (or_empty disk.image ++ "'/>"))
    ∷ ("      <target dev='" ++ (or_empty disk.device_name ++ "' bus='virtio'/>"))
    ∷ ("      <serial>" ++ (or_empty disk.serial ++ "</serial>"))
    ∷ ("      <alias name='virtio-disk-" ++ (disk.type ++ "'/>"))
    ∷ "    </disk>"
    ∷ []

iso_lines : Vm → List String
iso_lines machine =
    "    <disk type='file' device='cdrom'>"
    ∷ "      <driver name='qemu' type='raw'/>"
    ∷ ("      <source file='" ++ (or_none machine.cloud_init_iso ++ "'/>"))
    ∷ "      <target dev='hda' bus='ide'/>"
    ∷ "      <readonly/>"
    ∷ "    </disk>"
    ∷ []

abbrev controller_lines : List String
controller_lines =
    "" ∷ "    <controller type='pci' index='0' model='pci-root'>" ∷ "      <alias name='pci.0'/>"
    ∷ "    </controller>" ∷ "    <controller type='ide' index='0'>" ∷ "      <alias name='ide'/>"
    ∷ "      <address type='pci' domain='0x0000' bus='0x00' slot='0x01' function='0x1'/>"
    ∷ "    </controller>" ∷ "    <controller type='virtio-serial' index='0'>"
    ∷ "      <alias name='virtio-serial0'/>"
    ∷ "      <address type='pci' domain='0x0000' bus='0x00' slot='0x05' function='0x0'/>"
    ∷ "    </controller>" ∷ "" ∷ []

isolated_lines : NetIface → List String
isolated_lines net =
    "    <interface type='network' trustGuestRxFilters='yes'>"
    ∷ ("      <mac address='" ++ (net.macaddress ++ "'/>"))
    ∷ ("      <source network='" ++ (net.source ++ "'/>"))
    ∷ "      <model type='virtio'/>"
    ∷ "    </interface>"
    ∷ []

bridge_lines : NetIface → List String
bridge_lines net =
    "    <interface type='direct' trustGuestRxFilters='yes'>"
    ∷ ("      <mac address='" ++ (net.macaddress ++ "'/>"))
    ∷ ("      <source dev='" ++ (net.source ++ "' mode='bridge'/>"))
    ∷ "      <model type='virtio'/>"
    ∷ "      <driver>"
    ∷ "        <host csum='off' gso='off' tso4='off' tso6='off' ecn='off' ufo='off' mrg_rxbuf='off'/>"
    ∷ "        <guest csum='off' tso4='off' tso6='off' ecn='off' ufo='off'/>"
    ∷ "      </driver>"
    ∷ "    </interface>"
    ∷ []

serial_lines : Vm → List String
serial_lines machine =
    "    <serial type=\"tcp\">"
    ∷ ("      <source mode=\"bind\" host=\"0.0.0.0\" service='"
        ++ (port_text machine.sol_port ++ "'/>"))
    ∷ "      <protocol type=\"raw\"/>"
    ∷ "      <target port=\"0\"/>"
    ∷ "      <alias name='serial0'/>"
    ∷ "    </serial>"
    ∷ []

abbrev console_lines : List String
console_lines =
    "" ∷ "    <channel type='spicevmc'>"
    ∷ "      <target type='virtio' name='com.redhat.spice.0' state='disconnected'/>"
    ∷ "      <alias name='channel0'/>"
    ∷ "      <address type='virtio-serial' controller='0' bus='0' port='1'/>" ∷ "    </channel>"
    ∷ "" ∷ "    <input type='mouse' bus='ps2'/>" ∷ "    <input type='keyboard' bus='ps2'/>" ∷ ""
    ∷ "    <graphics type='vnc' autoport='yes' listen='0.0.0.0'>"
    ∷ "      <listen type='address' address='0.0.0.0'/>" ∷ "    </graphics>" ∷ "" ∷ "    <video>"
    ∷ "      <model type='cirrus' vram='16384' heads='1'/>" ∷ "      <alias name='video0'/>"
    ∷ "      <address type='pci' domain='0x0000' bus='0x00' slot='0x02' function='0x0'/>"
    ∷ "    </video>" ∷ "" ∷ []

hostdev_lines : Device → List String
hostdev_lines pci =
    "    <hostdev mode='subsystem' type='pci' managed='no'>"
    ∷ "      <source>"
    ∷ ("        <address domain='0x"
        ++ (pci.domain
            ++ ("' bus='0x"
                ++ (pci.bus
                    ++ ("' slot='0x"
                        ++ (pci.slot ++ ("' function='0x" ++ (pci.function ++ "'/>"))))))))
    ∷ "      </source>"
    ∷ "    </hostdev>"
    ∷ []

abbrev closing_lines : List String
closing_lines =
    "" ∷ "    <memballoon model='virtio'>" ∷ "      <alias name='balloon0'/>"
    ∷ "      <address type='pci' domain='0x0000' bus='0x00' slot='0x07' function='0x0'/>"
    ∷ "    </memballoon>" ∷ "" ∷ "  </devices>" ∷ "</domain>" ∷ []

disk_blocks : List Disk → List String
unfolding disk_lines or_empty
disk_blocks [] = []
disk_blocks (disk ∷ disks) = append (disk_lines disk) (tag ∷ disk_blocks disks)

iso_block : Vm → List String
unfolding iso_given iso_lines or_none
iso_block machine =
    if iso_given machine.cloud_init_iso then append (iso_lines machine) (tag ∷ []) else []

iface_lines : NetIface → List String
unfolding isolated_lines bridge_lines
iface_lines net = if net.mode == "isolated" then isolated_lines net else bridge_lines net

iface_blocks : List NetIface → List String
unfolding iface_lines
iface_blocks [] = []
iface_blocks (net ∷ nets) = tag ∷ append (iface_lines net) (tag ∷ tag ∷ iface_blocks nets)

serial_block : Vm → List String
unfolding port_given serial_lines port_text
serial_block machine =
    if port_given machine.sol_port then append (serial_lines machine) (tag ∷ []) else []

hostdev_blocks : List Device → List String
unfolding hostdev_lines
hostdev_blocks [] = []
hostdev_blocks (pci ∷ pcis) = append (hostdev_lines pci) (tag ∷ hostdev_blocks pcis)

concat : List (List String) → List String
concat [] = []
concat (part ∷ parts) = append part (concat parts)

pub xml_lines : Vm → String → List String
unfolding concat disk_blocks iso_block iface_blocks serial_block hostdev_blocks general_lines
    boot_disk_lines
xml_lines machine metadata = concat (
    ("" ∷ general_lines machine metadata)
    ∷ platform_lines
    ∷ boot_disk_lines machine
    ∷ (tag ∷ disk_blocks machine.disks)
    ∷ ("" ∷ tag ∷ iso_block machine)
    ∷ controller_lines
    ∷ (tag ∷ iface_blocks machine.net_ifaces)
    ∷ ("" ∷ "" ∷ tag ∷ serial_block machine)
    ∷ console_lines
    ∷ (tag ∷ hostdev_blocks machine.pcis)
    ∷ closing_lines
    ∷ [])

join_lines : List String → String
join_lines [] = ""
join_lines (line ∷ []) = line
join_lines (line ∷ next ∷ lines) = line ++ ("\n" ++ join_lines (next ∷ lines))

-- `generate_xml`
pub generate_xml : Vm → String → String
unfolding join_lines xml_lines
generate_xml machine metadata = join_lines (xml_lines machine metadata)
