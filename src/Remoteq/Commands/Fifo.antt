-- ===== src/Remoteq/Commands/Fifo.antt =====
-- Pushes at one end and pops at the other make a queue of commands.
use fossilizid.Remoteq.Commands.Pops.{Pops}
