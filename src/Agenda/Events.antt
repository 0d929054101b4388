-- ===== src/Agenda/Events.antt =====
-- `Agenda::add_listing` of pomagma/atlas/vm_impl.hpp and the methods `execute` of vm.hpp: the programs
-- that run on an event of a table.
use pomagma.Prelude.Table.{pair_key}
use pomagma.Agenda.{Agenda}
