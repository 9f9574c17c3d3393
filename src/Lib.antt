-- ===== src/Lib.antt =====
-- A model of the PParam library (a C++ library of parameters that convert to and from XML, with
-- objects made of parameters, lists of objects and a repository of such lists), and the theorems
-- about it.
--
-- Paths below are from the repository's root.
--
-- Exception.antt models include/exception.hpp and src/exception.cpp. A call that may throw is a
--   `Result`: `ok` with a value or `err` with the exception.
-- Status.antt models XObjectStatus (include/xobject.hpp, src/xobject.cpp) and the three functions
--   that change an object's status, setStatus, chStatus and bkStatus. `ch_status` is one round of
--   the loop in chStatus; `waits` stands for the wait on the condition variable.
--   Status/Threads.antt lets any number of threads take and give back one object, as a step
--   relation; a step is what happens under one hold of the object's mutex.
-- Object.antt models XObject::add, del, mod and reload. The virtual functions of a subclass, the
--   parameters of the object and its connections are an argument, the record `Hooks`; the scan of
--   notifyDependentObjects is modelled as far as it changes the status of the object itself.
-- Time.antt, Date.antt and DateTime.antt model TimeParam, DateParam and DateTime of
--   src/sparam.cpp, one function per method. Fields are numbers, with the wrap-around of their C++
--   types written out; sscanf and sprintf are the functions of Prelude/Scan.antt. Variables that
--   the code leaves uninitialised are an argument; a text that does not fit the buffer that sprintf
--   writes it to is `none`. The loop of daysOfDate runs on fuel, 256 rounds,
--   since its counter is an unsigned char. `now` and `addDay` (localtime and mktime) and
--   `formattedValue` with a caller's format are not modelled.
-- Port.antt models PortParam of src/sparam.cpp. The loop over the characters runs on fuel: its index
--   is an unsigned char, so that 257 rounds are enough for a text of fewer than 256 characters and
--   no number of rounds need be enough for a longer one. An int overflow, which C++ leaves
--   undefined, is an outcome of its own.
-- Ip.antt models the text and netmask helpers of IPParam, Ipv4.antt the assignments of IPv4Param
--   and Ipv4/Queries.antt its printing and network test, all of src/sparam.cpp. strtol and strtoul
--   are read on digits only, since the texts are tested before; their limits and the cut to int and
--   unsigned int are written out. What C++ leaves undefined (split without a splitter, a shift by
--   32) is `none`.
-- Ipv6.antt models the assignments of IPv6Param and Ipv6/Queries.antt its printing and network test,
--   both of src/sparam.cpp. An address is a list of eight numbers; the local array of eight ints that
--   setAddress fills is the list that it copies.
-- SetParam.antt models the list and the search map of XSetParam (include/xparam.hpp). A parameter is
--   the address of an object, and the key that the object's class gives it is an argument, so that
--   an address has one key; std::map is an association list. SetParam/Sort.antt models sort, whose
--   comparison is an argument; the sort of an empty set, whose loop overflows an int, is `none`.
-- XList.antt models the nodes of include/xlist.hpp, XList/Iterators.antt its XListIterator and
--   XList/Operations.antt its XList. The memory is a heap of nodes, each field a function of the
--   address, and a call is a command on it, which ends, is blocked (a mutex that is taken, a
--   destructor that waits for usageNO) or is at fault (an access through NULL or to a destroyed
--   node). Loops run on fuel; one round more than there are elements is enough for size and for
--   the copy constructor. XList/Sound.antt and its children hold the heap's invariant, Contents,
--   Refinement and Copying the sequence of elements, Destroying and Erase the destruction.
--   XList/World.antt lets threads use one list, a call for a step: a mutex is taken and given back
--   within a call, and xerase is cut in two where it waits. Where the callers of xerase keep
--   their iterator, the steps take it as given up, which is what xerase counts on.
-- Repository.antt models the state of XObjectRepository (include/xobject.hpp), its std::map and its
--   rw_lock, Repository/Lists.antt its operations and Repository/Queries.antt its queries. What they
--   call of XObjectList is the interface ListOps: a call ends with the new list and a result, or
--   waits. Arguments that are handed through are part of the call, and so is a list's call back of
--   cancelLoading. The lock counts how often it is held for reading; a call that has to wait
--   for it is `blocked`, and giving back a lock that is not held is `undefined`. Log messages are
--   not modelled.
-- IntParam.antt models XIntParam of include/xparam.hpp and include/xparam.tcc for unsigned int, with
--   its wrap-around; what `>>` of a string stream stores is written out, and the uninitialised
--   variable is an argument. EnumParam.antt models XEnumParam, with the texts and their number as an
--   argument, and BoolParam of src/sparam.cpp; an argument whose successor overflows an int is not
--   modelled.
-- SingleParam.antt models stripBlanks, is_myNode and XSingleParam of src/xparam.cpp. A node is its
--   name, its attribute and its children, comments, texts and others; the assignment of a text and
--   the value of a class derived from XSingleParam are arguments. A text is shorter than 2 ^ 31.
-- Prelude.antt and its children hold lists, texts, integers, and decimal and hexadecimal numbers. A
--   text is the list of its bytes.
-- Examples.antt holds runs, and the theorems at concrete inputs.
--
-- Not modelled: the database engine and the XML wrapper (calls of sqlite and libxml2), logging, and
-- the example programs; also object lists (XObjectList), and the parameters that no file
-- above names.
pub mod Date
pub mod DateTime
pub mod EnumParam
pub mod Examples
pub mod Exception
pub mod IntParam
pub mod Ip
pub mod Ipv4
pub mod Ipv6
pub mod Object
pub mod Port
pub mod Prelude
pub mod Repository
pub mod SetParam
pub mod SingleParam
pub mod Status
pub mod Time
pub mod XList
